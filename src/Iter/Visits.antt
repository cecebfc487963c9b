-- ===== src/Iter/Visits.antt =====
-- The walks of the iterator over an array (beer/beer_iter.c).
use bee_c.Base.{
  ℕ, zero, suc, ◌+◌, ◌-◌, ◌%◌, ◌^◌, ◌<◌, ◌≡◌, refl, sym, ap, ap₂, ◌∙◌, subst, Bool, Bool-cases, inl,
  inr, true, false, some,
}
use bee_c.Base.{
  List, [], ◌∷◌, ◌++◌, length, length-append, take, take-append, concat, ltb, ◌==◌, if◌then◌else◌,
  arith,
}
use bee_c.Msgpuck.{Msgpuck, MpType, ℤ, pos, negsuc}
use bee_c.Reply.{is_type}
use bee_c.Iter.{ArrayIter, array_next, array_rewind, iter_array, after, as_uint32, is_zero, between}

module _ (mp : Msgpuck) where
  -- The elements that n calls of `next` visit, up to one that ends.
  unfoldable pub visited : ℕ → ArrayIter → List (List ℕ)
  unfolding array_next
  visited zero i = []
  visited (suc n) i =
      let (more, j) = array_next mp i in
      let rest = visited n j in if more then between j.elem j.elem_end ∷ rest else []

  -- n calls of `next`.
  abbrev pub calls : ℕ → ArrayIter → ArrayIter
  calls zero i = i
  calls (suc n) i = calls n (array_next mp i).1

  -- `next` steps over one value.
  abbrev pub Whole : List ℕ → Type 0
  Whole v = (rest : List ℕ) → mp.next (v ++ rest) ≡ rest

  abbrev pub AllWhole : List (List ℕ) → Type 0
  AllWhole [] = Unit {0}
  AllWhole (v ∷ vs) = Whole v × AllWhole vs

pub between-append : (v rest : List ℕ) → between (v ++ rest) rest ≡ v
between-append v rest =
    let n : length (v ++ rest) - length rest ≡ length v = omega (arith, length-append v rest) in
    ap (λ k. take k (v ++ rest)) n ∙ take-append v rest (length v) refl

-- The place where the next element begins, and its index.
abbrev upcoming : ArrayIter → List ℕ
upcoming i = if is_zero (after i.cur_index) then i.first_elem else i.elem_end

module _ (mp : Msgpuck) where
  array_next-step :
      (v rest : List ℕ) (i : ArrayIter) (k : ℕ)
      → after i.cur_index ≡ pos k
      → k < i.elem_count
      → i.elem_count < 2 ^ 31
      → upcoming i ≡ v ++ rest
      → Whole mp v
      → array_next mp i ≡ (true, record i { cur_index = pos k; elem = v ++ rest; elem_end = rest })
  unfolding array_next
  array_next-step v rest i k e n few u w =
      let more : ltb (k % 2 ^ 32) i.elem_count ≡ true = ground (arith, n) in
      let u' : (if is_zero (pos k) then i.first_elem else i.elem_end) ≡ v ++ rest =
        subst (λ z. (if is_zero z then i.first_elem else i.elem_end) ≡ v ++ rest) e u in
      rw (e, more, u', w rest) refl

  visited-suc :
      (n : ℕ) (i j : ArrayIter)
      → array_next mp i ≡ (true, j)
      → visited mp (suc n) i ≡ between j.elem j.elem_end ∷ visited mp n j
  unfolding visited
  visited-suc n i j e =
      ap
        (λ (x : Bool × ArrayIter).
          if x.0 then between x.1.elem x.1.elem_end ∷ visited mp n x.1 else [])
        e

  -- The next element of a walk that is under way stands at `elem_end`.
  pub under_way :
      (z : ℤ) (k : ℕ) (a b : List ℕ) → z ≡ pos (k + 1) → (if is_zero z then a else b) ≡ b
  under_way z k a b e =
      let m : k + 1 ≡ suc k = omega arith in
      subst (λ y. (if is_zero y then a else b) ≡ b) (sym (e ∙ ap pos m)) refl

  -- From index k on.
  visited_from :
      (vs : List (List ℕ)) (i : ArrayIter) (k : ℕ)
      → after i.cur_index ≡ pos k
      → k + length vs ≡ i.elem_count
      → i.elem_count < 2 ^ 31
      → upcoming i ≡ concat vs
      → AllWhole mp vs
      → visited mp (suc (length vs)) i ≡ vs
  unfolding visited array_next
  visited_from [] i k e n few u w =
      let done : ltb (k % 2 ^ 32) i.elem_count ≡ false = ground (arith, n) in
      simp (visited, e, done) refl
  visited_from (v ∷ vs) i k e n few u (w, ws) =
      let j : ArrayIter = record i {
        cur_index = pos k;
        elem = v ++ concat vs;
        elem_end = concat vs;
      } in
      visited-suc (suc (length vs)) i j (array_next-step v (concat vs) i k e (omega arith) few u w)
      ∙ ap₂ ◌∷◌ (between-append v (concat vs)) (
          visited_from vs j (k + 1) refl (omega arith) few
            (under_way (pos (k + 1)) k i.first_elem (concat vs) refl) ws)

  rewind-next : (i : ArrayIter) → array_rewind mp (array_next mp i).1 ≡ array_rewind mp i
  unfolding array_rewind array_next
  rewind-next i = elim (Bool-cases (ltb (as_uint32 (after i.cur_index)) i.elem_count)) [
    | inl y ↦ rw y refl
    | inr n ↦ rw n refl
  ]

  rewind-calls : (n : ℕ) (i : ArrayIter) → array_rewind mp (calls mp n i) ≡ array_rewind mp i
  rewind-calls zero i = refl
  rewind-calls (suc n) i = rewind-calls n (array_next mp i).1 ∙ rewind-next i

  -- An iterator over an array of fewer than 2 ^ 31 elements, which the codec accepts, decodes and
  -- steps over one by one, exists where memory is found; its calls of next visit exactly the
  -- elements, in order and once each, and then end, and after any number of calls a rewind makes
  -- them visit all elements again.
  pub iter_array-visits :
      (vs : List (List ℕ)) (j n : ℕ)
      → let data' = mp.encode_array (length vs) ++ concat vs in
        length vs < 2 ^ 31
        → mp.check data' ≡ some j
        → (length data' == 0) ≡ false
        → is_type mp MpType.mp_array data' ≡ true
        → mp.decode_array data' ≡ (length vs, concat vs)
        → AllWhole mp vs
        → (i : ArrayIter) × (iter_array mp true data' ≡ some i)
          × (visited mp (suc (length vs)) i ≡ vs)
          × (visited mp (suc (length vs)) (array_rewind mp (calls mp n i)) ≡ vs)
  unfolding iter_array array_rewind array_next
  iter_array-visits vs j n few c l t d w =
      let data' = mp.encode_array (length vs) ++ concat vs in
      let i : ArrayIter = record {
        status = true;
        data' = data';
        first_elem = concat vs;
        elem = [];
        elem_end = [];
        elem_count = length vs;
        cur_index = negsuc 0;
      } in
      (
        i,
        simp (iter_array, c, l, t, d) refl,
        visited_from vs i 0 refl (omega arith) few refl w,
        ap (visited mp (suc (length vs))) (rewind-calls n i)
            ∙ visited_from vs i 0 refl (omega arith) few refl w,
      )
