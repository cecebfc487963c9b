-- ===== src/Schema/Indexes.antt =====
-- What the cache of beer/beer_schema.c finds after indexes were added to it.
use bee_c.Base.{
  ℕ, zero, suc, ◌≡◌, refl, sym, ap, ◌∙◌, subst, Bool, Bool-cases, inl, inr, true, false, ◌||◌, ◌&&◌,
  Option, none, some, List, [], ◌∷◌, ◌==◌, if◌then◌else◌, arith,
}
use bee_c.Msgpuck.{ℤ}
use bee_c.Request.Auth.{same_bytes}
use bee_c.Schema.{
  Assoc, Finds, Ival, Sval, Schema, u32_key, as_int32, at_address, replace_at, space_at, number_of,
  index_in, index_number, put_index,
}
use bee_c.Schema.Spaces.{Entry, is_key}

at_address-replace_at {ℓ} :
    {A : Type ℓ} (xs : List A) (i : ℕ) (x y : A)
    → at_address xs i ≡ some x
    → at_address (replace_at xs i y) i ≡ some y
at_address-replace_at [] i x y h = cc
at_address-replace_at (z ∷ xs) zero x y h = refl
at_address-replace_at (z ∷ xs) (suc i) x y h = at_address-replace_at xs i x y h

at_address-replace_at_other {ℓ} :
    {A : Type ℓ} (xs : List A) (i j : ℕ) (y : A)
    → (j == i) ≡ false
    → at_address (replace_at xs i y) j ≡ at_address xs j
at_address-replace_at_other [] i j y h = refl
at_address-replace_at_other (z ∷ xs) zero zero y h = cc
at_address-replace_at_other (z ∷ xs) zero (suc j) y h = refl
at_address-replace_at_other (z ∷ xs) (suc i) zero y h = refl
at_address-replace_at_other (z ∷ xs) (suc i) (suc j) y h =
    let n : (j == i) ≡ false = ground arith in at_address-replace_at_other xs i j y n

pub at_address-kept {ℓ} :
    {A : Type ℓ} (xs : List A) (i j : ℕ) (x y z : A)
    → at_address xs i ≡ some x
    → at_address xs j ≡ some z
    → (w : A) × (at_address (replace_at xs i y) j ≡ some w)
at_address-kept xs i j x y z h g = elim (Bool-cases (j == i)) [
  | inl e ↦
      let same : j ≡ i = ground arith in
      (y, ap (at_address (replace_at xs i y)) same ∙ at_address-replace_at xs i x y h)
  | inr n ↦ (z, at_address-replace_at_other xs i j y n ∙ g)
]

-- An index as the server gives it: the number of its space, its number and its name.
abbrev pub IndexEntry : Type 0
IndexEntry = ℕ × Entry

abbrev pub same_address : Option ℕ → Option ℕ → Bool
same_address none o = false
same_address (some a) none = false
same_address (some a) (some b) = a == b

-- A function from spaces and names to numbers, once indexes were added to it; `same` is whether two
-- numbers lead to one space.
abbrev pub indexed : (ℕ → ℕ → Bool) → List IndexEntry → (ℕ → List ℕ → ℤ) → ℕ → List ℕ → ℤ
indexed same [] f sid k = f sid k
indexed same (e ∷ es) f sid k =
    indexed same es
      (λ sid' k'. if same sid' e.0 && is_key e.1 k' then as_int32 e.1.0 else f sid' k') sid k

pub indexed-ext :
    (same : ℕ → ℕ → Bool) (es : List IndexEntry) (f g : ℕ → List ℕ → ℤ) (sid : ℕ) (k : List ℕ)
    → ((sid' : ℕ) (k' : List ℕ) → f sid' k' ≡ g sid' k')
    → indexed same es f sid k ≡ indexed same es g sid k
indexed-ext same [] f g sid k h = h sid k
indexed-ext same (e ∷ es) f g sid k h =
    indexed-ext same es
      (λ sid' k'. if same sid' e.0 && is_key e.1 k' then as_int32 e.1.0 else f sid' k')
      (λ sid' k'. if same sid' e.0 && is_key e.1 k' then as_int32 e.1.0 else g sid' k') sid k
      (λ sid' k'.
        ap (λ x. if same sid' e.0 && is_key e.1 k' then as_int32 e.1.0 else x) (h sid' k'))

module _ {SM IM : Type 0} (sm : Assoc SM ℕ) (im : Assoc IM Ival) (laws : Finds im) where
  -- Whether two numbers lead to one space.
  abbrev pub same_space : Schema SM IM → ℕ → ℕ → Bool
  same_space s sid sid' =
      same_address (sm.find (u32_key sid) s.space_hash) (sm.find (u32_key sid') s.space_hash)

  index-put :
      (space : Sval IM) (number : ℕ) (name k : List ℕ)
      → let ival : Ival = record { number = number; name = name } in
        index_number sm im (im.find k (im.put (u32_key number) ival (im.put name ival space.index)))
        ≡ (if is_key (number, name) k
            then as_int32 number
            else index_number sm im (im.find k space.index))
  index-put space number name k =
      let ival : Ival = record { number = number; name = name } in
      ap (index_number sm im) (
        laws.find-put k (u32_key number) ival (im.put name ival space.index)
        ∙ ap (λ x. if same_bytes k (u32_key number) then some ival else x)
            (laws.find-put k name ival space.index))
      ∙ either (same_bytes k (u32_key number)) (same_bytes k name) ival (im.find k space.index)
    where
      either :
          (b c : Bool) (v : Ival) (x : Option Ival)
          → index_number sm im (if b then some v else (if c then some v else x))
            ≡ (if b || c then as_int32 v.number else index_number sm im x)
      either true c v x = refl
      either false true v x = refl
      either false false v x = refl

  -- The indexes of a space, by the address that its number leads to.
  pub index_by_address :
      (s : Schema SM IM) (a : ℕ) (space : Sval IM) (number : ℕ) (name k : List ℕ) (o : Option ℕ)
      → at_address s.heap a ≡ some space
      → index_in sm im k (space_at sm im (put_index sm im s a space number name) o) ≡ (
          if same_address o (some a) && is_key (number, name) k
          then as_int32 number
          else index_in sm im k (space_at sm im s o))
  unfolding put_index
  index_by_address s a space number name k none h = refl
  index_by_address s a space number name k (some b) h = elim (Bool-cases (b == a)) [
    | inl y ↦
        let same : b ≡ a = ground arith in
        let ival : Ival = record { number = number; name = name } in
        let space' : Sval IM = record space {
          index = im.put (u32_key number) ival (im.put name ival space.index);
        } in
        let core : index_in sm im k (at_address (replace_at s.heap a space') a) ≡ (
            if is_key (number, name) k
            then as_int32 number
            else index_in sm im k (at_address s.heap a)) =
          ap (index_in sm im k) (at_address-replace_at s.heap a space space' h)
          ∙ index-put space number name k
          ∙ sym (
              ap (λ x. if is_key (number, name) k then as_int32 number else index_in sm im k x)
                h) in
        rw y (
          subst
            (λ c. index_in sm im k (at_address (replace_at s.heap a space') c) ≡ (
              if is_key (number, name) k
              then as_int32 number
              else index_in sm im k (at_address s.heap c)))
            (sym same) core)
    | inr n ↦ rw n (ap (index_in sm im k) (at_address-replace_at_other s.heap a b _ n))
  ]

  -- Adding an index changes no space that a key leads to.
  pub number_by_address :
      (s : Schema SM IM) (a : ℕ) (space : Sval IM) (number : ℕ) (name : List ℕ) (o : Option ℕ)
      → at_address s.heap a ≡ some space
      → number_of sm im (space_at sm im (put_index sm im s a space number name) o)
        ≡ number_of sm im (space_at sm im s o)
  unfolding put_index
  number_by_address s a space number name none h = refl
  number_by_address s a space number name (some b) h = elim (Bool-cases (b == a)) [
    | inl y ↦
        let same : b ≡ a = ground arith in
        let ival : Ival = record { number = number; name = name } in
        let space' : Sval IM = record space {
          index = im.put (u32_key number) ival (im.put name ival space.index);
        } in
        subst
          (λ c.
            number_of sm im (at_address (replace_at s.heap a space') c)
            ≡ number_of sm im (at_address s.heap c))
          (sym same)
          (ap (number_of sm im) (at_address-replace_at s.heap a space space' h)
            ∙ sym (ap (number_of sm im) h))
    | inr n ↦ ap (number_of sm im) (at_address-replace_at_other s.heap a b _ n)
  ]
