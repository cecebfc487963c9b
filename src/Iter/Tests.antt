-- ===== src/Iter/Tests.antt =====
-- Walks over an array and a map of values of one byte each.
use bee_c.Base.{ℕ, ◌≡◌, refl, true, some, List, [], ◌∷◌, arith}
use bee_c.Msgpuck.{Msgpuck, MpType}
use bee_c.Msgpuck.Sample.{sample}
use bee_c.Iter.{ArrayIter, iter_array, array_rewind}
use bee_c.Iter.Visits.{visited, calls, iter_array-visits}

abbrev tail : List ℕ → List ℕ
tail [] = []
tail (b ∷ bs) = bs

abbrev first_rest : List ℕ → ℕ × List ℕ
first_rest [] = (0, [])
first_rest (b ∷ bs) = (b, bs)

-- A codec of bytes, where a container begins with its size.
abbrev bytewise : MpType → Msgpuck
bytewise type = record sample {
  encode_array = λ n. n ∷ [];
  encode_map = λ n. n ∷ [];
  type_of = λ p. type;
  decode_array = first_rest;
  decode_map = first_rest;
  next = tail;
}

iter_array-visits_example :
    (i : ArrayIter) × (iter_array (bytewise MpType.mp_array) true (2 ∷ 7 ∷ 8 ∷ []) ≡ some i)
    × (visited (bytewise MpType.mp_array) 3 i ≡ (7 ∷ []) ∷ (8 ∷ []) ∷ [])
    × (visited
          (bytewise MpType.mp_array)
          3
          (array_rewind (bytewise MpType.mp_array) (calls (bytewise MpType.mp_array) 1 i))
        ≡ (7 ∷ []) ∷ (8 ∷ []) ∷ [])
iter_array-visits_example =
    iter_array-visits (bytewise MpType.mp_array) ((7 ∷ []) ∷ (8 ∷ []) ∷ []) 3 1 (omega arith) refl
      refl refl refl ((λ rest. refl), ((λ rest. refl), tt))
