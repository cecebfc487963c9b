-- ===== src/Schema/Spaces.antt =====
-- What the cache of beer/beer_schema.c finds after spaces were added to it.
use bee_c.Base.{
  ℕ, zero, suc, ◌+◌, ◌%◌, ◌^◌, ◌<◌, ◌≡◌, refl, sym, ap, ◌∙◌, Bool, Bool-cases, inl, inr, true,
  false, ◌||◌, Option, none, some, List, [], ◌∷◌, ◌++◌, length, length-append, if◌then◌else◌, arith,
}
use bee_c.Msgpuck.{Msgpuck, MpType, ℤ}
use bee_c.Reply.{is_type}
use bee_c.Request.Auth.{same_bytes}
use bee_c.Schema.{
  Assoc, Finds, Ival, Sval, Schema, u32_key, as_int32, at_address, space_at, number_of, stosid,
  put_space, allocated, add_space, spaces_loop, add_spaces,
}

pub at_address-new {ℓ} :
    {A : Type ℓ} (xs : List A) (x : A) → at_address (xs ++ x ∷ []) (length xs) ≡ some x
at_address-new [] x = refl
at_address-new (y ∷ xs) x = at_address-new xs x

pub at_address-old {ℓ} :
    {A : Type ℓ} (xs ys : List A) (i : ℕ)
    → i < length xs
    → at_address (xs ++ ys) i ≡ at_address xs i
at_address-old [] ys i h = absurd (omega arith)
at_address-old (x ∷ xs) ys zero h = refl
at_address-old (x ∷ xs) ys (suc i) h = at_address-old xs ys i (omega arith)

-- A space as the server gives it: its number and its name.
abbrev pub Entry : Type 0
Entry = ℕ × List ℕ

-- Whether a key is the name or the number of a space.
abbrev pub is_key : Entry → List ℕ → Bool
is_key e k = same_bytes k (u32_key e.0) || same_bytes k e.1

-- A function from names to numbers, once spaces were added to it; a later one comes first.
abbrev pub found : List Entry → (List ℕ → ℤ) → List ℕ → ℤ
found [] f k = f k
found (e ∷ es) f k = found es (λ k'. if is_key e k' then as_int32 e.0 else f k') k

pub found-ext :
    (es : List Entry) (f g : List ℕ → ℤ) (k : List ℕ)
    → ((k' : List ℕ) → f k' ≡ g k')
    → found es f k ≡ found es g k
found-ext [] f g k h = h k
found-ext (e ∷ es) f g k h =
    found-ext es (λ k'. if is_key e k' then as_int32 e.0 else f k')
      (λ k'. if is_key e k' then as_int32 e.0 else g k') k
      (λ k'. ap (λ x. if is_key e k' then as_int32 e.0 else x) (h k'))

module _ {SM IM : Type 0} (sm : Assoc SM ℕ) (im : Assoc IM Ival) (laws : Finds sm) where
  -- No key leads out of the heap.
  abbrev pub IsValid : Schema SM IM → Type 0
  IsValid s = (k : List ℕ) (a : ℕ) → sm.find k s.space_hash ≡ some a → a < length s.heap

  put_space-find :
      (s : Schema SM IM) (number : ℕ) (name k : List ℕ)
      → sm.find k (put_space sm im s number name).space_hash
        ≡ (if is_key (number, name) k then some (length s.heap) else sm.find k s.space_hash)
  unfolding put_space
  put_space-find s number name k =
      laws.find-put k (u32_key number) (length s.heap) (sm.put name (length s.heap) s.space_hash)
      ∙ ap (λ x. if same_bytes k (u32_key number) then some (length s.heap) else x)
          (laws.find-put k name (length s.heap) s.space_hash)
      ∙ either (same_bytes k (u32_key number)) (same_bytes k name) (some (length s.heap))
          (sm.find k s.space_hash)
    where
      either :
          (b c : Bool) (x y : Option ℕ)
          → (if b then x else (if c then x else y)) ≡ (if b || c then x else y)
      either true c x y = refl
      either false c x y = refl

  -- The space under a key that led somewhere before.
  old_space :
      (s : Schema SM IM) (space : Sval IM) (o : Option ℕ)
      → ((a : ℕ) → o ≡ some a → a < length s.heap)
      → number_of sm im (space_at sm im (record s { heap = s.heap ++ space ∷ [] }) o)
        ≡ number_of sm im (space_at sm im s o)
  old_space s space none h = refl
  old_space s space (some a) h =
      ap (number_of sm im) (at_address-old s.heap (space ∷ []) a (h a refl))

  -- A new space is found under its name and its number, and all other keys find what they found.
  pub stosid-put_space :
      (s : Schema SM IM) (number : ℕ) (name k : List ℕ)
      → IsValid s
      → stosid sm im (put_space sm im s number name) k
        ≡ (if is_key (number, name) k then as_int32 number else stosid sm im s k)
  unfolding stosid put_space
  stosid-put_space s number name k v =
      let space : Sval IM = record { number = number; name = name; index = im.new } in
      let t : Schema SM IM = record s { heap = s.heap ++ space ∷ [] } in
      ap (λ o. number_of sm im (space_at sm im t o)) (put_space-find s number name k)
      ∙ (elim (Bool-cases (is_key (number, name) k)) [
        | inl y ↦ rw y (ap (number_of sm im) (at_address-new s.heap space))
        | inr n ↦ rw n (old_space s space (sm.find k s.space_hash) (v k))
      ])

  some_below : (n a : ℕ) → some n ≡ some a → a ≡ n
  some_below n a e = cc

  put_space-IsValid :
      (s : Schema SM IM) (number : ℕ) (name : List ℕ)
      → IsValid s
      → IsValid (put_space sm im s number name)
  unfolding put_space
  put_space-IsValid s number name v k a e =
      let space : Sval IM = record { number = number; name = name; index = im.new } in
      let size : length (s.heap ++ space ∷ []) ≡ length s.heap + 1 =
        length-append s.heap (space ∷ []) in
      let e' = sym (put_space-find s number name k) ∙ e in
      elim (Bool-cases (is_key (number, name) k)) [
        | inl y ↦
            let b : some (length s.heap) ≡ some a = simp y at e' in
            let c = some_below (length s.heap) a b in omega arith
        | inr n ↦
            let b : sm.find k s.space_hash ≡ some a = simp n at e' in let c = v k a b in omega arith
      ]

  module _ (mp : Msgpuck) (grants : ℕ → Bool) where
    -- The bytes of a tuple as the codec reads them: an array of a number, any value, a name and
    -- more, with `rest` behind it.
    pub record SpaceTuple (p : List ℕ) (e : Entry) (rest : List ℕ) : Type 0 where
      pub array : is_type mp MpType.mp_array p ≡ true
      pub uint : is_type mp MpType.mp_uint (mp.decode_array p).1 ≡ true
      pub number : (mp.decode_uint (mp.decode_array p).1).0 % 2 ^ 32 ≡ e.0
      pub str : is_type mp MpType.mp_str (mp.next (mp.decode_uint (mp.decode_array p).1).1) ≡ true
      pub name : (mp.decode_str (mp.next (mp.decode_uint (mp.decode_array p).1).1)).0 ≡ e.1
      pub behind : mp.next p ≡ rest

    -- Such tuples one behind the other.
    abbrev pub SpaceTuples : List ℕ → List Entry → Type 0
    SpaceTuples p [] = Unit {0}
    SpaceTuples p (e ∷ es) = (rest : List ℕ) × SpaceTuple p e rest × SpaceTuples rest es

    add_space-put :
        (s : Schema SM IM) (p rest : List ℕ) (e : Entry)
        → ((k : ℕ) → grants k ≡ true)
        → SpaceTuple p e rest
        → add_space sm im mp grants s p
          ≡ (true, put_space sm im (allocated sm im s 5) e.0 e.1, rest)
    unfolding add_space
    add_space-put s p rest e w t =
        simp (add_space, t.array, w, t.uint, t.str, t.number, t.name, t.behind) refl

    spaces_loop-found :
        (es : List Entry) (s : Schema SM IM) (p : List ℕ)
        → ((k : ℕ) → grants k ≡ true)
        → IsValid s
        → SpaceTuples p es
        → (s' : Schema SM IM) × (spaces_loop sm im mp grants (length es) s p ≡ (true, s'))
          × IsValid s'
          × ((k : List ℕ) → stosid sm im s' k ≡ found es (stosid sm im s) k)
    unfolding spaces_loop stosid
    spaces_loop-found [] s p w v t = (s, refl, v, λ k. refl)
    spaces_loop-found (e ∷ es) s p w v (rest, t, ts) =
        let s1 = allocated sm im s 5 in
        let s2 = put_space sm im s1 e.0 e.1 in
        let step = add_space-put s p rest e w t in
        let (s', loop, v', finds) =
          spaces_loop-found es s2 rest w (put_space-IsValid s1 e.0 e.1 v) ts in
        (
          s',
          ap
                (λ (x : Bool × Schema SM IM × List ℕ).
                  if x.0 then spaces_loop sm im mp grants (length es) x.1 x.2 else (false, x.1))
                step
              ∙ loop,
          v',
          λ k.
              finds k
              ∙ found-ext es (stosid sm im s2)
                  (λ k'. if is_key e k' then as_int32 e.0 else stosid sm im s k') k
                  (λ k'. stosid-put_space s1 e.0 e.1 k' v),
        )

    -- Where memory is found, the reply to the select of spaces is taken over whole: the cache is
    -- valid as before, the name and the number of each space give its number, where the last of
    -- several spaces with a key counts, and every other key gives what it gave.
    pub add_spaces-found :
        (es : List Entry) (s : Schema SM IM) (data' first : List ℕ) (j : ℕ)
        → ((k : ℕ) → grants k ≡ true)
        → IsValid s
        → mp.check data' ≡ some j
        → is_type mp MpType.mp_array data' ≡ true
        → mp.decode_array data' ≡ (length es, first)
        → SpaceTuples first es
        → (s' : Schema SM IM) × (add_spaces sm im mp grants s data' ≡ (true, s'))
          × IsValid s'
          × ((k : List ℕ) → stosid sm im s' k ≡ found es (stosid sm im s) k)
    unfolding add_spaces stosid
    add_spaces-found es s data' first j w v c t d ts =
        let (s', loop, v', finds) = spaces_loop-found es s first w v ts in
        (s', simp (add_spaces, c, t, d) loop, v', finds)
