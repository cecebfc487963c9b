-- ===== src/Tp/Response.antt =====
-- `struct tpresponse` of include/tp.h: the greeting, the parser of a reply, and the walk over its
-- tuples and over their fields.
use bee_c.Base.{
  ℕ, zero, suc, ◌+◌, ◌-◌, ◌%◌, ◌^◌, Bool, true, false, not, Option, none, some, List, length, drop,
  ltb, ◌==◌, if◌then◌else◌,
}
use bee_c.Msgpuck.{Msgpuck, MpType}
use bee_c.Reply.{is_type, with_bit}
use bee_c.Iter.{after, as_uint32}
use bee_c.Tp.Iterators.{
  TpArrayItr, zero_array, tp_array_itr_init, tp_array_itr_next, tp_array_itr_reset,
}

-- `error` is the bytes between its two pointers; `data'` and `data_end` are pointers; `none` is NULL.
pub record TpResponse : Type 0 where
  pub bitmap : ℕ
  pub code : ℕ
  pub sync : ℕ
  pub error : Option (List ℕ)
  pub data' : Option (List ℕ)
  pub data_end : Option (List ℕ)
  pub tuple_itr : TpArrayItr
  pub field_itr : TpArrayItr

abbrev pub zero_response : TpResponse
zero_response = record {
  bitmap = 0;
  code = 0;
  sync = 0;
  error = none;
  data' = none;
  data_end = none;
  tuple_itr = zero_array;
  field_itr = zero_array;
}

-- `tp_greeting`: the size that it takes, and the description and the salt that it points to.
unfoldable pub tp_greeting : List ℕ → ℕ × Option (List ℕ × List ℕ)
tp_greeting buf = if ltb (length buf) 128 then (0, none) else (128, some (buf, drop 64 buf))

abbrev pub bit_of : TpResponse → ℕ → TpResponse
bit_of r key = record r { bitmap = with_bit r.bitmap key }

unfoldable pub tp_getreqid : TpResponse → ℕ
tp_getreqid r = r.sync % 2 ^ 32

unfoldable pub tp_hasdata : TpResponse → Bool
tp_hasdata r = ltb 0 r.tuple_itr.elem_count

unfoldable pub tp_tuplecount : TpResponse → ℕ
tp_tuplecount r = r.tuple_itr.elem_count

abbrev pub has_more : TpArrayItr → Bool
has_more i = ltb (as_uint32 (after i.cur_index)) i.elem_count

unfoldable pub tp_hasnext : TpResponse → Bool
tp_hasnext r = has_more r.tuple_itr

unfoldable pub tp_gettuple : TpResponse → List ℕ
tp_gettuple r = r.tuple_itr.elem

unfoldable pub tp_tuplesize : TpResponse → ℕ
tp_tuplesize r = (length r.tuple_itr.elem - length r.tuple_itr.elem_end) % 2 ^ 32

unfoldable pub tp_tupleend : TpResponse → List ℕ
tp_tupleend r = r.tuple_itr.elem_end

unfoldable pub tp_hasnextfield : TpResponse → Bool
tp_hasnextfield r = has_more r.field_itr

unfoldable pub tp_getfield : TpResponse → List ℕ
tp_getfield r = r.field_itr.elem

unfoldable pub tp_getfieldsize : TpResponse → ℕ
tp_getfieldsize r = (length r.field_itr.elem - length r.field_itr.elem_end) % 2 ^ 32

module _ (mp : Msgpuck) where
  -- The case of a key of the header, at its value.
  unfoldable pub header_case : ℕ → TpResponse → List ℕ → TpResponse × List ℕ
  header_case key r p =
      let (value, rest) = mp.decode_uint p in
      if key == 0x01
      then (record r { sync = value }, rest)
      else if key == 0x00
      then (record r { code = value % 2 ^ 32 }, rest)
      else (r, mp.next p)

  -- `none` is `return -1`, with what was filled in before.
  unfoldable pub reply_header : ℕ → TpResponse → List ℕ → Option (List ℕ) × TpResponse
  unfolding header_case
  reply_header zero r p = (some p, r)
  reply_header (suc n) r p =
      let (key, q) = mp.decode_uint p in
      let (r', rest) = header_case (key % 2 ^ 32) r q in
      let later = reply_header n (bit_of r' (key % 2 ^ 32)) rest in
      if not (is_type mp MpType.mp_uint p)
      then (none, r)
      else if not (is_type mp MpType.mp_uint q)
      then (none, r)
      else later

  -- The case of a key of the body, at its value.
  unfoldable pub body_case : ℕ → TpResponse → List ℕ → Option (TpResponse × List ℕ)
  body_case key r p =
      let (text, rest) = mp.decode_str p in
      if key == 0x31
      then (if is_type mp MpType.mp_str p
          then some (record r { error = some text }, rest)
          else none)
      else if key == 0x30
      then (if is_type mp MpType.mp_array p
          then some (record r { data' = some p; data_end = some (mp.next p) }, mp.next p)
          else none)
      else some (r, mp.next p)

  unfoldable pub reply_body : ℕ → TpResponse → List ℕ → Option (List ℕ) × TpResponse
  unfolding body_case
  reply_body zero r p = (some p, r)
  reply_body (suc n) r p =
      let (key, q) = mp.decode_uint p in
      elim (body_case (key % 2 ^ 32) r q) [
        | none ↦ (none, r)
        | some (r', rest) ↦ reply_body n (bit_of r' (key % 2 ^ 32)) rest
      ]

  -- The iterator over the tuples, where there are data.
  unfoldable pub with_tuples : TpResponse → Bool × TpResponse
  unfolding tp_array_itr_init
  with_tuples r = elim r.data' [
    | none ↦ (true, r)
    | some p ↦ elim r.data_end [
      | none ↦ (true, r)
      | some q ↦
          let (ok, i) = tp_array_itr_init mp p (length p - length q) in
          (ok, record r { tuple_itr = i })
    ]
  ]

  abbrev pub ended : ℕ → List ℕ → Bool × TpResponse → Option ℕ × TpResponse
  ended size p (true, r) = (some (size - length p), r)
  ended size p (false, r) = (none, r)

  abbrev pub body_read : ℕ → Option (List ℕ) × TpResponse → Option ℕ × TpResponse
  body_read size (none, r) = (none, r)
  body_read size (some p, r) = ended size p (with_tuples r)

  -- Behind the header; `len` is the length that the reply gives.
  unfoldable pub header_read : ℕ → ℕ → Option (List ℕ) × TpResponse → Option ℕ × TpResponse
  unfolding reply_body with_tuples
  header_read size len (none, r) = (none, r)
  header_read size len (some p, r) =
      let (n, rest) = mp.decode_map p in
      if (size - length p) == (len + 5) then (some ((len + 5) % 2 ^ 32), r) else elim (mp.check p) [
        | none ↦ (none, r)
        | some _ ↦
            if is_type mp MpType.mp_map p
            then body_read size (reply_body (n % 2 ^ 32) r rest)
            else (none, r)
      ]

  -- `tp_reply`: `none` is -1.
  unfoldable pub tp_reply : List ℕ → Option ℕ × TpResponse
  unfolding reply_header header_read
  tp_reply buf =
      let size = length buf in
      let (len', p) = mp.decode_uint buf in
      let len = len' % 2 ^ 32 in
      let (n, rest) = mp.decode_map p in
      if size == 0 then (some 0, zero_response) else elim (mp.check buf) [
        | none ↦ (none, zero_response)
        | some _ ↦
            if not (is_type mp MpType.mp_uint buf)
            then (none, zero_response)
            else if ltb size ((len + (size - length p)) % 2 ^ 32)
            then (some 0, zero_response)
            else elim (mp.check p) [
              | none ↦ (none, zero_response)
              | some _ ↦
                  if is_type mp MpType.mp_map p
                  then header_read size len (reply_header (n % 2 ^ 32) zero_response rest)
                  else (none, zero_response)
            ]
      ]

  unfoldable pub tp_rewind : TpResponse → TpResponse
  unfolding tp_array_itr_reset
  tp_rewind r = record r { tuple_itr = tp_array_itr_reset mp r.tuple_itr; field_itr = zero_array }

  -- Once the iterator over the tuples has stepped.
  abbrev pub tuple_read : TpResponse → Bool × TpArrayItr → Bool × TpResponse
  tuple_read r (false, i) = (false, record r { tuple_itr = i; field_itr = zero_array })
  tuple_read r (true, i) = (
    true,
    record r {
      tuple_itr = i;
      field_itr = (tp_array_itr_init mp i.elem (length i.elem - length i.elem_end)).1;
    },
  )

  unfoldable pub tp_next : TpResponse → Bool × TpResponse
  unfolding tp_array_itr_next tp_array_itr_init
  tp_next r = tuple_read r (tp_array_itr_next mp r.tuple_itr)

  unfoldable pub tp_rewindfield : TpResponse → TpResponse
  unfolding tp_array_itr_reset
  tp_rewindfield r = record r { field_itr = tp_array_itr_reset mp r.field_itr }

  unfoldable pub tp_nextfield : TpResponse → Bool × TpResponse
  unfolding tp_array_itr_next
  tp_nextfield r =
      let (more, i) = tp_array_itr_next mp r.field_itr in (more, record r { field_itr = i })
