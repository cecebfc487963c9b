-- ===== src/Tp/Agree.antt =====
-- The iterators of include/tp.h and those of beer/beer_iter.c.
use bee_c.Base.{
  ℕ, ◌≡◌, refl, Bool, Bool-cases, inl, inr, true, false, Option, none, some, List, length, take_all,
  ltb, ◌==◌, arith,
}
use bee_c.Msgpuck.{Msgpuck, MpType}
use bee_c.Reply.{is_type}
use bee_c.Iter.{
  ArrayIter, MapIter, iter_array, array_next, array_rewind, iter_map, map_next, map_rewind, after,
  as_uint32,
}
use bee_c.Tp.Iterators.{
  TpArrayItr, TpMapItr, tp_array_itr_init, tp_array_itr_next, tp_array_itr_reset, tp_map_itr_init,
  tp_map_itr_next, tp_map_itr_reset, zero_array, zero_map,
}

-- What the two structures share: all but the status.
abbrev pub array_view : ArrayIter → TpArrayItr
array_view i = record {
  data' = i.data';
  first_elem = i.first_elem;
  elem = i.elem;
  elem_end = i.elem_end;
  elem_count = i.elem_count;
  cur_index = i.cur_index;
}

abbrev pub map_view : MapIter → TpMapItr
map_view i = record {
  data' = i.data';
  first_key = i.first_key;
  key = i.key;
  key_end = i.key_end;
  value = i.value;
  value_end = i.value_end;
  pair_count = i.pair_count;
  cur_index = i.cur_index;
}

abbrev pub array_made : Option ArrayIter → Bool × TpArrayItr
array_made none = (false, zero_array)
array_made (some i) = (true, array_view i)

abbrev pub map_made : Option MapIter → Bool × TpMapItr
map_made none = (false, zero_map)
map_made (some i) = (true, map_view i)

module _ (mp : Msgpuck) where
  array_init_by :
      (data' : List ℕ) (c : Option ℕ)
      → mp.check data' ≡ c
      → tp_array_itr_init mp data' (length data') ≡ array_made (iter_array mp true data')
  unfolding tp_array_itr_init iter_array
  array_init_by data' none e =
      simp (tp_array_itr_init, iter_array, take_all (length data') data' (omega arith), e) refl
  array_init_by data' (some k) e =
      let all = take_all (length data') data' (omega arith) in
      elim (Bool-cases (length data' == 0)) [
        | inl y ↦ simp (tp_array_itr_init, iter_array, all, e, y) refl
        | inr n ↦ elim (Bool-cases (is_type mp MpType.mp_array data')) [
          | inl t ↦ simp (tp_array_itr_init, iter_array, all, e, n, t) refl
          | inr f ↦ simp (tp_array_itr_init, iter_array, all, e, n, f) refl
        ]
      ]

  map_init_by :
      (data' : List ℕ) (c : Option ℕ)
      → mp.check data' ≡ c
      → tp_map_itr_init mp data' (length data') ≡ map_made (iter_map mp true data')
  unfolding tp_map_itr_init iter_map
  map_init_by data' none e =
      simp (tp_map_itr_init, iter_map, take_all (length data') data' (omega arith), e) refl
  map_init_by data' (some k) e =
      let all = take_all (length data') data' (omega arith) in
      elim (Bool-cases (length data' == 0)) [
        | inl y ↦ simp (tp_map_itr_init, iter_map, all, e, y) refl
        | inr n ↦ elim (Bool-cases (is_type mp MpType.mp_map data')) [
          | inl t ↦ simp (tp_map_itr_init, iter_map, all, e, n, t) refl
          | inr f ↦ simp (tp_map_itr_init, iter_map, all, e, n, f) refl
        ]
      ]

  pub array_next-view :
      (i : ArrayIter)
      → tp_array_itr_next mp (array_view i) ≡ ((array_next mp i).0, array_view (array_next mp i).1)
  unfolding tp_array_itr_next array_next
  array_next-view i = elim (Bool-cases (ltb (as_uint32 (after i.cur_index)) i.elem_count)) [
    | inl y ↦ rw y refl
    | inr n ↦ rw n refl
  ]

  pub map_next-view :
      (i : MapIter)
      → tp_map_itr_next mp (map_view i) ≡ ((map_next mp i).0, map_view (map_next mp i).1)
  unfolding tp_map_itr_next map_next
  map_next-view i = elim (Bool-cases (ltb (as_uint32 (after i.cur_index)) i.pair_count)) [
    | inl y ↦ rw y refl
    | inr n ↦ rw n refl
  ]

  -- The array iterators of the two interfaces are one: where memory is found, they accept the
  -- same data, and on what they share they start alike, step alike and rewind alike.
  pub tp_array_itr-Agrees :
      ((data' : List ℕ)
        → tp_array_itr_init mp data' (length data') ≡ array_made (iter_array mp true data'))
      × ((i : ArrayIter)
          → tp_array_itr_next mp (array_view i)
            ≡ ((array_next mp i).0, array_view (array_next mp i).1))
      × ((i : ArrayIter) → tp_array_itr_reset mp (array_view i) ≡ array_view (array_rewind mp i))
  unfolding tp_array_itr_reset array_rewind
  tp_array_itr-Agrees =
      (λ data'. array_init_by data' (mp.check data') refl, array_next-view, λ i. refl)

  -- And so are the map iterators.
  pub tp_map_itr-Agrees :
      ((data' : List ℕ)
        → tp_map_itr_init mp data' (length data') ≡ map_made (iter_map mp true data'))
      × ((i : MapIter)
          → tp_map_itr_next mp (map_view i) ≡ ((map_next mp i).0, map_view (map_next mp i).1))
      × ((i : MapIter) → tp_map_itr_reset mp (map_view i) ≡ map_view (map_rewind mp i))
  unfolding tp_map_itr_reset map_rewind
  tp_map_itr-Agrees = (λ data'. map_init_by data' (mp.check data') refl, map_next-view, λ i. refl)
