-- ===== src/Iter/Walk.antt =====
-- `struct beer_iter_array`, `struct beer_iter_map`, and their functions.
use bee_c.Base.{ℕ, zero, suc, ◌+◌, ◌-◌, ◌%◌, ◌^◌, Bool, true, false, not, Option, none, some}
use bee_c.Base.{List, [], length, take, ltb, ◌==◌, if◌then◌else◌}
use bee_c.Msgpuck.{Msgpuck, MpType, ℤ, pos, negsuc}
use bee_c.Reply.{is_type}

-- NULL is the empty list: nothing is read through it. `status` is that of the `struct beer_iter`; true is
-- BEER_ITER_OK.
pub record ArrayIter : Type 0 where
  pub status : Bool
  pub data' : List ℕ
  pub first_elem : List ℕ
  pub elem : List ℕ
  pub elem_end : List ℕ
  pub elem_count : ℕ
  pub cur_index : ℤ

pub record MapIter : Type 0 where
  pub status : Bool
  pub data' : List ℕ
  pub first_key : List ℕ
  pub key : List ℕ
  pub key_end : List ℕ
  pub value : List ℕ
  pub value_end : List ℕ
  pub pair_count : ℕ
  pub cur_index : ℤ

-- `cur_index++`, and its cast to `uint32_t`.
abbrev pub after : ℤ → ℤ
after (pos n) = pos (n + 1)
after (negsuc zero) = pos 0
after (negsuc (suc n)) = negsuc n

abbrev pub as_uint32 : ℤ → ℕ
as_uint32 (pos n) = n % 2 ^ 32
as_uint32 (negsuc n) = 2 ^ 32 - 1 - n

abbrev pub is_zero : ℤ → Bool
is_zero (pos zero) = true
is_zero (pos (suc n)) = false
is_zero (negsuc n) = false

-- The bytes between two pointers.
abbrev pub between : List ℕ → List ℕ → List ℕ
between p q = take (length p - length q) p

module _ (mp : Msgpuck) where
  unfoldable pub array_next : ArrayIter → Bool × ArrayIter
  array_next i =
      let cur = after i.cur_index in
      let p = if is_zero cur then i.first_elem else i.elem_end in
      if not (ltb (as_uint32 cur) i.elem_count)
      then (false, record i { cur_index = cur; status = false })
      else (true, record i { cur_index = cur; elem = p; elem_end = mp.next p })

  unfoldable pub array_rewind : ArrayIter → ArrayIter
  array_rewind i = record i { cur_index = negsuc 0; elem = []; elem_end = []; status = true }

  -- `none` is NULL; `granted` is whether memory is found for the iterator, where it is wanted.
  unfoldable pub iter_array : Bool → List ℕ → Option ArrayIter
  iter_array granted data' =
      let (n, first) = mp.decode_array data' in
      elim (mp.check data') [
        | none ↦ none
        | some _ ↦
            if length data' == 0
            then none
            else if not (is_type mp MpType.mp_array data')
            then none
            else if not granted
            then none
            else some (record {
              status = true;
              data' = data';
              first_elem = first;
              elem = [];
              elem_end = [];
              elem_count = n;
              cur_index = negsuc 0;
            })
      ]

  unfoldable pub map_next : MapIter → Bool × MapIter
  map_next i =
      let cur = after i.cur_index in
      let p = if is_zero cur then i.first_key else i.value_end in
      if not (ltb (as_uint32 cur) i.pair_count)
      then (false, record i { cur_index = cur; status = false })
      else (
        true,
        record i {
          cur_index = cur;
          key = p;
          key_end = mp.next p;
          value = mp.next p;
          value_end = mp.next (mp.next p);
        },
      )

  unfoldable pub map_rewind : MapIter → MapIter
  map_rewind i = record i {
    cur_index = negsuc 0;
    key = [];
    key_end = [];
    value = [];
    value_end = [];
    status = true;
  }

  unfoldable pub iter_map : Bool → List ℕ → Option MapIter
  iter_map granted data' =
      let (n, first) = mp.decode_map data' in
      elim (mp.check data') [
        | none ↦ none
        | some _ ↦
            if length data' == 0
            then none
            else if not (is_type mp MpType.mp_map data')
            then none
            else if not granted
            then none
            else some (record {
              status = true;
              data' = data';
              first_key = first;
              key = [];
              key_end = [];
              value = [];
              value_end = [];
              pair_count = n;
              cur_index = negsuc 0;
            })
      ]
