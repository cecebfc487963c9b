-- ===== src/Tp/Answer.antt =====
-- The replies that a server writes for a result, and `tp_reply` of include/tp.h on them.
use bee_c.Base.{
  ℕ, suc, ◌+◌, ◌-◌, ◌%◌, ◌^◌, ◌<◌, ◌≡◌, refl, ap, ◌∙◌, Bool, true, false, some, List, [], ◌++◌,
  append_assoc, length, length-append, take, take-append, ◌==◌, arith,
}
use bee_c.Msgpuck.{Msgpuck, MpType, negsuc}
use bee_c.Reply.{is_type}
use bee_c.Reply.RoundTrip.{Decodes, fields, payload, data_body}
use bee_c.Tp.Iterators.{TpArrayItr, tp_array_itr_init}
use bee_c.Tp.Response.{
  TpResponse, zero_response, bit_of, header_case, reply_header, body_case, reply_body, with_tuples,
  ended, header_read,
}

module _ (mp : Msgpuck) where
  -- The iterator at the beginning of an array of n elements.
  abbrev pub at_start : ℕ → List ℕ → List ℕ → TpArrayItr
  at_start n data' first = record {
    data' = data';
    first_elem = first;
    elem = [];
    elem_end = [];
    elem_count = n;
    cur_index = negsuc 0;
  }

  abbrev pub with_header : ℕ → ℕ → TpResponse
  with_header code sync =
      bit_of
        (bit_of
          (record (bit_of (record zero_response { code = code % 2 ^ 32 }) 0x00) { sync = sync })
          0x01)
        0x05

  -- What is read of a result: its code and its id, the data, and the iterator over the tuples.
  abbrev pub answered : ℕ → ℕ → ℕ → List ℕ → List ℕ → List ℕ → TpResponse
  answered code sync n data' first tail =
      record (bit_of
        (record (with_header code sync) { data' = some (data' ++ tail); data_end = some tail })
        0x30) { tuple_itr = at_start n (data' ++ tail) first }

  -- The bytes of a result behind its length, in a buffer with `tail` behind it, as the codec reads them: the
  -- three checks, the value that is skipped, and the array of the data.
  pub record Readable (code sync schema n : ℕ) (data' first tail : List ℕ) : Type 0 where
    pub code_fits : code < 2 ^ 64
    pub sync_fits : sync < 2 ^ 64
    pub size_fits : length (payload mp code sync schema (data_body mp data')) < 2 ^ 31
    pub head_checks :
        (j : ℕ) × (mp.check (payload mp code sync schema (data_body mp data') ++ tail) ≡ some j)
    pub body_checks : (j : ℕ) × (mp.check (data_body mp data' ++ tail) ≡ some j)
    pub data_checks : (j : ℕ) × (mp.check data' ≡ some j)
    pub skips : (rest : List ℕ) → mp.next (mp.encode_uint schema ++ rest) ≡ rest
    pub some_data : (length data' == 0) ≡ false
    pub is_array : is_type mp MpType.mp_array (data' ++ tail) ≡ true
    pub whole : mp.next (data' ++ tail) ≡ tail
    pub elements : mp.decode_array (data' ++ tail) ≡ (n, first)

  module _ (laws : Decodes mp) where
    round :
        (n key value : ℕ) (r r' : TpResponse) (rest : List ℕ)
        → key < 2 ^ 32
        → header_case mp key r (mp.encode_uint value ++ rest) ≡ (r', rest)
        → reply_header mp (suc n) r (mp.encode_uint key ++ (mp.encode_uint value ++ rest))
          ≡ reply_header mp n (bit_of r' key) rest
    unfolding reply_header
    round n key value r r' rest h e =
        let m : key % 2 ^ 32 ≡ key = omega arith in
        let a : mp.decode_uint (mp.encode_uint key ++ (mp.encode_uint value ++ rest))
            ≡ (key, mp.encode_uint value ++ rest) =
          laws.uint_value key _ (omega arith) in
        simp (reply_header, laws.uint_type, a, m, e) refl

    header_case-code :
        (value : ℕ) (r : TpResponse) (rest : List ℕ)
        → value < 2 ^ 64
        → header_case mp 0x00 r (mp.encode_uint value ++ rest)
          ≡ (record r { code = value % 2 ^ 32 }, rest)
    unfolding header_case
    header_case-code value r rest h = simp (header_case, laws.uint_value value rest h) refl

    header_case-sync :
        (value : ℕ) (r : TpResponse) (rest : List ℕ)
        → value < 2 ^ 64
        → header_case mp 0x01 r (mp.encode_uint value ++ rest) ≡ (record r { sync = value }, rest)
    unfolding header_case
    header_case-sync value r rest h = simp (header_case, laws.uint_value value rest h) refl

    header_case-schema :
        (value : ℕ) (r : TpResponse) (rest : List ℕ)
        → mp.next (mp.encode_uint value ++ rest) ≡ rest
        → header_case mp 0x05 r (mp.encode_uint value ++ rest) ≡ (r, rest)
    unfolding header_case
    header_case-schema value r rest h = simp (header_case, h) refl

    pub reply_header-fields :
        (code sync schema : ℕ) (rest : List ℕ)
        → code < 2 ^ 64
        → sync < 2 ^ 64
        → mp.next (mp.encode_uint schema ++ rest) ≡ rest
        → reply_header mp 3 zero_response (fields mp code sync schema rest)
          ≡ (some rest, with_header code sync)
    unfolding reply_header
    reply_header-fields code sync schema rest a b c =
        let coded : TpResponse = record zero_response { code = code % 2 ^ 32 } in
        let first = bit_of coded 0x00 in
        let synced : TpResponse = record first { sync = sync } in
        let second = bit_of synced 0x01 in
        round 2 0x00 code zero_response coded _ (omega arith)
          (header_case-code code zero_response _ a)
        ∙ round 1 0x01 sync first synced _ (omega arith) (header_case-sync sync first _ b)
        ∙ round 0 0x05 schema second second _ (omega arith) (header_case-schema schema second _ c)

    reply_body-data :
        (r : TpResponse) (data' tail : List ℕ)
        → is_type mp MpType.mp_array (data' ++ tail) ≡ true
        → mp.next (data' ++ tail) ≡ tail
        → reply_body mp 1 r (mp.encode_uint 0x30 ++ (data' ++ tail)) ≡ (
          some tail,
          bit_of (record r { data' = some (data' ++ tail); data_end = some tail }) 0x30,
        )
    unfolding reply_body body_case
    reply_body-data r data' tail t e =
        let a : mp.decode_uint (mp.encode_uint 0x30 ++ (data' ++ tail)) ≡ (0x30, data' ++ tail) =
          laws.uint_value 0x30 (data' ++ tail) (omega arith) in
        simp (reply_body, body_case, a, t, e) refl

    with_tuples-some :
        (code sync schema n : ℕ) (data' first tail : List ℕ) (r : TpResponse)
        → Readable code sync schema n data' first tail
        → let r' : TpResponse = record r { data' = some (data' ++ tail); data_end = some tail } in
          with_tuples mp r' ≡ (true, record r' { tuple_itr = at_start n (data' ++ tail) first })
    unfolding with_tuples tp_array_itr_init
    with_tuples-some code sync schema n data' first tail r x =
        let size : length (data' ++ tail) - length tail ≡ length data' =
          omega (arith, length-append data' tail) in
        let inside : take (length data') (data' ++ tail) ≡ data' =
          take-append data' tail (length data') refl in
        let init : tp_array_itr_init mp (data' ++ tail) (length (data' ++ tail) - length tail)
            ≡ (true, at_start n (data' ++ tail) first) =
          simp
            (tp_array_itr_init, size, inside, x.data_checks.1, x.some_data, x.is_array, x.elements)
            refl in
        let r' : TpResponse = record r { data' = some (data' ++ tail); data_end = some tail } in
        ap (λ (y : Bool × TpArrayItr). (y.0, record r' { tuple_itr = y.1 })) init

    pub header_read-data :
        (code sync schema n len : ℕ) (data' first tail pre : List ℕ) (r : TpResponse)
        → Readable code sync schema n data' first tail
        → length pre + length (data_body mp data') ≡ len + 5
        → let size = length (pre ++ (data_body mp data' ++ tail)) in
          header_read mp size len (some (data_body mp data' ++ tail), r) ≡ (
            some (len + 5),
            record (bit_of (record r { data' = some (data' ++ tail); data_end = some tail }) 0x30) {
              tuple_itr = at_start n (data' ++ tail) first;
            },
          )
    unfolding header_read
    header_read-data code sync schema n len data' first tail pre r x e =
        let p = data_body mp data' ++ tail in
        let size = length (pre ++ p) in
        let filled : TpResponse =
          bit_of (record r { data' = some (data' ++ tail); data_end = some tail }) 0x30 in
        let shape : p ≡ mp.encode_map 1 ++ (mp.encode_uint 0x30 ++ (data' ++ tail)) =
          simp append_assoc refl in
        let decoded : mp.decode_map p ≡ (1, mp.encode_uint 0x30 ++ (data' ++ tail)) =
          ap mp.decode_map shape ∙ laws.map_value 1 _ (omega arith) in
        let map : is_type mp MpType.mp_map p ≡ true =
          ap (is_type mp MpType.mp_map) shape ∙ laws.map_type 1 _ in
        let body_size : length (data_body mp data')
            ≡ length (mp.encode_map 1) + (length (mp.encode_uint 0x30) + length data') =
          simp length-append refl in
        let whole : size ≡ length pre + (length (data_body mp data') + length tail) =
          simp length-append refl in
        let body : length p ≡ length (data_body mp data') + length tail =
          length-append (data_body mp data') tail in
        let some_data = x.some_data in
        let more : (size - length p == len + 5) ≡ false = ground arith in
        let all : size - length tail ≡ len + 5 = omega arith in
        let read = reply_body-data r data' tail x.is_array x.whole in
        let tuples = with_tuples-some code sync schema n data' first tail (bit_of r 0x30) x in
        simp (header_read, more, x.body_checks.1, map, decoded, read)
          (ap (ended mp size tail) tuples
            ∙ ap (λ k. (some k, record filled { tuple_itr = at_start n (data' ++ tail) first }))
                all)
