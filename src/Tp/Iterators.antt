-- ===== src/Tp/Iterators.antt =====
-- The iterators of include/tp.h over an array and over a map. A pointer into the data is the list of
-- the bytes from there to the end, and NULL is the empty list.
use bee_c.Base.{ℕ, Bool, true, false, not, none, some, List, [], take, ltb, ◌==◌, if◌then◌else◌}
use bee_c.Msgpuck.{Msgpuck, MpType, ℤ, pos, negsuc}
use bee_c.Reply.{is_type}
use bee_c.Iter.{after, as_uint32, is_zero}

pub record TpArrayItr : Type 0 where
  pub data' : List ℕ
  pub first_elem : List ℕ
  pub elem : List ℕ
  pub elem_end : List ℕ
  pub elem_count : ℕ
  pub cur_index : ℤ

pub record TpMapItr : Type 0 where
  pub data' : List ℕ
  pub first_key : List ℕ
  pub key : List ℕ
  pub key_end : List ℕ
  pub value : List ℕ
  pub value_end : List ℕ
  pub pair_count : ℕ
  pub cur_index : ℤ

-- `memset` to 0.
abbrev pub zero_array : TpArrayItr
zero_array = record {
  data' = [];
  first_elem = [];
  elem = [];
  elem_end = [];
  elem_count = 0;
  cur_index = pos 0;
}

abbrev pub zero_map : TpMapItr
zero_map = record {
  data' = [];
  first_key = [];
  key = [];
  key_end = [];
  value = [];
  value_end = [];
  pair_count = 0;
  cur_index = pos 0;
}

module _ (mp : Msgpuck) where
  -- true is the result 0, false is -1.
  unfoldable pub tp_array_itr_init : List ℕ → ℕ → Bool × TpArrayItr
  tp_array_itr_init data' size =
      let (n, first) = mp.decode_array data' in
      elim (mp.check (take size data')) [
        | none ↦ (false, zero_array)
        | some _ ↦
            if size == 0
            then (false, zero_array)
            else if not (is_type mp MpType.mp_array data')
            then (false, zero_array)
            else (
              true,
              record {
                data' = data';
                first_elem = first;
                elem = [];
                elem_end = [];
                elem_count = n;
                cur_index = negsuc 0;
              },
            )
      ]

  unfoldable pub tp_array_itr_next : TpArrayItr → Bool × TpArrayItr
  tp_array_itr_next i =
      let cur = after i.cur_index in
      let p = if is_zero cur then i.first_elem else i.elem_end in
      if not (ltb (as_uint32 cur) i.elem_count)
      then (false, record i { cur_index = cur })
      else (true, record i { cur_index = cur; elem = p; elem_end = mp.next p })

  unfoldable pub tp_array_itr_reset : TpArrayItr → TpArrayItr
  tp_array_itr_reset i = record i { cur_index = negsuc 0; elem = []; elem_end = [] }

  unfoldable pub tp_map_itr_init : List ℕ → ℕ → Bool × TpMapItr
  tp_map_itr_init data' size =
      let (n, first) = mp.decode_map data' in
      elim (mp.check (take size data')) [
        | none ↦ (false, zero_map)
        | some _ ↦
            if size == 0
            then (false, zero_map)
            else if not (is_type mp MpType.mp_map data')
            then (false, zero_map)
            else (
              true,
              record {
                data' = data';
                first_key = first;
                key = [];
                key_end = [];
                value = [];
                value_end = [];
                pair_count = n;
                cur_index = negsuc 0;
              },
            )
      ]

  unfoldable pub tp_map_itr_next : TpMapItr → Bool × TpMapItr
  tp_map_itr_next i =
      let cur = after i.cur_index in
      let p = if is_zero cur then i.first_key else i.value_end in
      if not (ltb (as_uint32 cur) i.pair_count) then (false, record i { cur_index = cur }) else (
        true,
        record i {
          cur_index = cur;
          key = p;
          key_end = mp.next p;
          value = mp.next p;
          value_end = mp.next (mp.next p);
        },
      )

  unfoldable pub tp_map_itr_reset : TpMapItr → TpMapItr
  tp_map_itr_reset i = record i {
    cur_index = negsuc 0;
    key = [];
    key_end = [];
    value = [];
    value_end = [];
  }
