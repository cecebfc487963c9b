-- ===== src/Msgpuck/Tagged.antt =====
-- A codec for examples, where a number, an array and a map begin with a tag of their own.
use bee_c.Base.{zero, suc, ◌+◌, ℕ, Option, none, some, List, [], ◌∷◌, ◌==◌, if◌then◌else◌}
use bee_c.Msgpuck.{Msgpuck, MpType}
use bee_c.Msgpuck.Sample.{sample}

abbrev pub type_by_tag : List ℕ → MpType
type_by_tag [] = MpType.mp_nil
type_by_tag (t ∷ p) =
    if t == 1
    then MpType.mp_uint
    else if t == 5
    then MpType.mp_array
    else if t == 6
    then MpType.mp_map
    else MpType.mp_nil

abbrev pub second : List ℕ → ℕ × List ℕ
second (t ∷ n ∷ rest) = (n, rest)
second _ = (0, [])

abbrev pub check_some : List ℕ → Option ℕ
check_some [] = none
check_some (t ∷ rest) = some 1

abbrev pub tagged : Msgpuck
tagged = record sample {
  encode_uint = λ n. 1 ∷ n ∷ [];
  encode_map = λ n. 6 ∷ n ∷ [];
  type_of = type_by_tag;
  check = check_some;
  decode_uint = second;
  decode_map = second;
  next = λ p. [];
}

-- The bytes behind k values.
abbrev pub skip : ℕ → ℕ → List ℕ → List ℕ
skip zero k p = p
skip (suc f) zero p = p
skip (suc f) (suc k) [] = []
skip (suc f) (suc k) (t ∷ []) = []
skip (suc f) (suc k) (t ∷ n ∷ p) =
    let more = skip f (k + n) p in let fewer = skip f k p in if t == 5 then more else fewer
