-- ===== src/Tp/Reading.antt =====
-- Replies that include/tp.h reads, in a small codec whose values begin with a tag.
use bee_c.Base.{drop}
use bee_c.Base.{
  ℕ, ◌+◌, ◌≡◌, refl, true, some, List, [], ◌∷◌, ◌++◌, length, ◌==◌, if◌then◌else◌, arith,
}
use bee_c.Msgpuck.{Msgpuck, MpType}
use bee_c.Msgpuck.Tagged.{skip, tagged, second, type_by_tag}
use bee_c.Reply.RoundTrip.{Decodes, payload, data_body}
use bee_c.Iter.{ArrayIter, iter_array, array_next, array_rewind}
use bee_c.Tp.Iterators.{tp_array_itr_init, tp_array_itr_next, tp_array_itr_reset}
use bee_c.Tp.Agree.{array_view, array_made, tp_array_itr-Agrees}
use bee_c.Tp.Response.{TpResponse, tp_reply, tp_tuplecount}
use bee_c.Tp.Walk.{Tuple, read_rows, tp_reply-Table}

-- A number with the tag 7 takes five bytes.
abbrev number_of : List ℕ → ℕ × List ℕ
number_of [] = (0, [])
number_of (t ∷ []) = (0, [])
number_of (t ∷ n ∷ p) = if t == 7 then (n, drop 3 p) else (n, p)

abbrev type_of : List ℕ → MpType
type_of [] = MpType.mp_nil
type_of (t ∷ p) = if t == 7 then MpType.mp_uint else type_by_tag (t ∷ p)

abbrev numbered : Msgpuck
numbered = record tagged {
  encode_array = λ n. 5 ∷ n ∷ [];
  decode_array = second;
  decode_uint = number_of;
  type_of = type_of;
  check = λ p. some (length p);
  next = skip 9 1;
}

numbered-Decodes : Decodes numbered
numbered-Decodes = record {
  uint_type = λ n rest. refl;
  uint_value = λ n rest h. refl;
  map_type = λ n rest. refl;
  map_value = λ n rest h. refl;
}

-- One tuple of two numbers.
abbrev table : List (List ℕ × List (List ℕ))
table = (5 ∷ 2 ∷ 1 ∷ 7 ∷ 1 ∷ 8 ∷ [], (1 ∷ 7 ∷ []) ∷ (1 ∷ 8 ∷ []) ∷ []) ∷ []

abbrev data_bytes : List ℕ
data_bytes = 5 ∷ 1 ∷ 5 ∷ 2 ∷ 1 ∷ 7 ∷ 1 ∷ 8 ∷ []

abbrev bytes : List ℕ
bytes = payload numbered 0 3 80 (data_body numbered data_bytes)

abbrev prefix : List ℕ
prefix = 7 ∷ 26 ∷ 0 ∷ 0 ∷ 0 ∷ []

table-Tuple : Tuple numbered (5 ∷ 2 ∷ 1 ∷ 7 ∷ 1 ∷ 8 ∷ []) ((1 ∷ 7 ∷ []) ∷ (1 ∷ 8 ∷ []) ∷ [])
table-Tuple = record {
  whole = λ rest. refl;
  fields = (λ rest. refl, (λ rest. refl, tt));
  few = omega arith;
  short = omega arith;
  checks = (6, refl);
  nonempty = refl;
  array = λ rest. refl;
  elements = λ rest. refl;
}

tp_reply-Table_example :
    (r : TpResponse) × (tp_reply numbered (prefix ++ (bytes ++ (9 ∷ [])))
      ≡ (some (5 + length bytes), r))
    × (tp_tuplecount r ≡ 1)
    × (read_rows numbered 2 3 r ≡ ((1 ∷ 7 ∷ []) ∷ (1 ∷ 8 ∷ []) ∷ []) ∷ [])
tp_reply-Table_example =
    tp_reply-Table numbered numbered-Decodes prefix (9 ∷ []) table 0 3 80 3
      (record {
        code_fits = omega arith;
        sync_fits = omega arith;
        size_fits = omega arith;
        head_checks = (27, refl);
        body_checks = (13, refl);
        data_checks = (8, refl);
        skips = λ rest. refl;
        some_data = refl;
        is_array = refl;
        whole = refl;
        elements = refl;
      })
      (record { five = refl; type = refl; value = refl; checks = (32, refl) }) (omega arith)
      (table-Tuple, omega arith, tt)

tp_array_itr-Agrees_example :
    ((data' : List ℕ)
      → tp_array_itr_init numbered data' (length data')
        ≡ array_made (iter_array numbered true data'))
    × ((i : ArrayIter)
        → tp_array_itr_next numbered (array_view i)
          ≡ ((array_next numbered i).0, array_view (array_next numbered i).1))
    × ((i : ArrayIter)
        → tp_array_itr_reset numbered (array_view i) ≡ array_view (array_rewind numbered i))
tp_array_itr-Agrees_example = tp_array_itr-Agrees numbered
