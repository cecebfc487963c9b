-- ===== src/Reply/RoundTrip.antt =====
-- The replies that a server writes for a result, and `parse` on them (beer/beer_reply.c).
use bee_c.Base.{ℕ, suc, ◌+◌, ◌-◌, ◌%◌, ◌^◌, ◌<◌, ◌≡◌, refl, ◌∙◌, true, false, some}
use bee_c.Base.{List, [], ◌++◌, length, take, take_all, ◌==◌, arith}
use bee_c.Msgpuck.{Msgpuck, MpType}
use bee_c.Reply.{
  Reply, going, mark, is_type, header_loop, header_value, body_value, body_loop, parse_body, parse,
}

-- What the documentation of the codec promises of the decoders.
pub record Decodes (mp : Msgpuck) : Type 0 where
  pub uint_type :
      (n : ℕ) (rest : List ℕ) → is_type mp MpType.mp_uint (mp.encode_uint n ++ rest) ≡ true
  pub uint_value :
      (n : ℕ) (rest : List ℕ) → n < 2 ^ 64 → mp.decode_uint (mp.encode_uint n ++ rest) ≡ (n, rest)
  pub map_type : (n : ℕ) (rest : List ℕ) → is_type mp MpType.mp_map (mp.encode_map n ++ rest) ≡ true
  pub map_value :
      (n : ℕ) (rest : List ℕ) → n < 2 ^ 32 → mp.decode_map (mp.encode_map n ++ rest) ≡ (n, rest)

-- The reply that the payload of a result stands for.
abbrev pub with_result : Reply → ℕ → ℕ → ℕ → List ℕ → Reply
with_result r code sync schema data' =
    mark
      (record (mark
        (record (mark (record (mark (record r { code = code }) 0x00) { sync = sync }) 0x01) {
          schema_id = schema;
        })
        0x05) { data' = some data' })
      0x30

module _ (mp : Msgpuck) where
  -- The fields of a header of the server, and its body.
  abbrev pub fields : ℕ → ℕ → ℕ → List ℕ → List ℕ
  fields code sync schema body =
      mp.encode_uint 0x00
      ++ (mp.encode_uint code
          ++ (mp.encode_uint 0x01
              ++ (mp.encode_uint sync ++ (mp.encode_uint 0x05 ++ (mp.encode_uint schema ++ body)))))

  abbrev pub payload : ℕ → ℕ → ℕ → List ℕ → List ℕ
  payload code sync schema body = mp.encode_map 3 ++ fields code sync schema body

  -- The body of a result.
  abbrev pub data_body : List ℕ → List ℕ
  data_body data' = mp.encode_map 1 ++ (mp.encode_uint 0x30 ++ data')

  module _ (laws : Decodes mp) where
    header_round :
        (n key value : ℕ) (r r' : Reply) (rest : List ℕ)
        → key < 2 ^ 32
        → value < 2 ^ 64
        → header_value key value r ≡ some r'
        → header_loop mp (suc n) r (mp.encode_uint key ++ (mp.encode_uint value ++ rest))
          ≡ header_loop mp n (mark r' key) rest
    unfolding header_loop
    header_round n key value r r' rest h k e =
        let m : key % 2 ^ 32 ≡ key = omega arith in
        let a : mp.decode_uint (mp.encode_uint key ++ (mp.encode_uint value ++ rest))
            ≡ (key, mp.encode_uint value ++ rest) =
          laws.uint_value key _ (omega arith) in
        simp (laws.uint_type, a, laws.uint_value value rest k, m, e) refl

    pub header_loop-payload :
        (r : Reply) (code sync schema : ℕ) (body : List ℕ)
        → code < 2 ^ 64
        → sync < 2 ^ 64
        → schema < 2 ^ 64
        → header_loop mp 3 r (fields code sync schema body)
          ≡ going (
            mark
                (record (mark
                  (record (mark (record r { code = code }) 0x00) { sync = sync })
                  0x01) { schema_id = schema })
                0x05,
            body,
          )
    unfolding header_loop header_value
    header_loop-payload r code sync schema body a b c =
        header_round 2 0x00 code r _ _ (omega arith) a refl
        ∙ header_round 1 0x01 sync _ _ _ (omega arith) b refl
        ∙ header_round 0 0x05 schema _ _ _ (omega arith) c refl

    pub never : (a b : ℕ) → (a - b == a + 5) ≡ false
    never a b = ground arith

    body_round :
        (n : ℕ) (r : Reply) (data' : List ℕ)
        → is_type mp MpType.mp_array data' ≡ true
        → mp.next data' ≡ []
        → body_loop mp (suc n) r (mp.encode_uint 0x30 ++ data')
          ≡ body_loop mp n (mark (record r { data' = some data' }) 0x30) []
    unfolding body_loop body_value
    body_round n r data' t e =
        let a : mp.decode_uint (mp.encode_uint 0x30 ++ data') ≡ (0x30, data') =
          laws.uint_value 0x30 data' (omega arith) in
        let whole : take (length data' - 0) data' ≡ data' = take_all _ data' (omega arith) in
        simp (body_loop, a, t, e, whole) refl

    body_loop-data :
        (r : Reply) (data' : List ℕ)
        → is_type mp MpType.mp_array data' ≡ true
        → mp.next data' ≡ []
        → body_loop mp 1 r (mp.encode_uint 0x30 ++ data')
          ≡ going (mark (record r { data' = some data' }) 0x30)
    unfolding body_loop
    body_loop-data r data' t e = body_round 0 r data' t e

    parse_body-data :
        (r : Reply) (size : ℕ) (data' : List ℕ) (k : ℕ)
        → mp.check (data_body data') ≡ some k
        → is_type mp MpType.mp_array data' ≡ true
        → mp.next data' ≡ []
        → parse_body mp size r (data_body data')
          ≡ going (0, mark (record r { data' = some data' }) 0x30)
    unfolding parse_body
    parse_body-data r size data' k c t e =
        let a : mp.decode_map (data_body data') ≡ (1, mp.encode_uint 0x30 ++ data') =
          laws.map_value 1 _ (omega arith) in
        simp (never, c, laws.map_type, a, body_loop-data r data' t e) refl

    pub parse-payload :
        (r : Reply) (code sync schema : ℕ) (data' : List ℕ) (j k : ℕ)
        → code < 2 ^ 64
        → sync < 2 ^ 64
        → schema < 2 ^ 64
        → mp.check (payload code sync schema (data_body data')) ≡ some j
        → mp.check (data_body data') ≡ some k
        → is_type mp MpType.mp_array data' ≡ true
        → mp.next data' ≡ []
        → parse mp r (payload code sync schema (data_body data'))
          ≡ going (0, with_result r code sync schema data')
    unfolding parse
    parse-payload r code sync schema data' j k x y z c d t e =
        let a : mp.decode_map (payload code sync schema (data_body data'))
            ≡ (3, fields code sync schema (data_body data')) =
          laws.map_value 3 _ (omega arith) in
        let p =
          parse_body-data
            (mark
              (record (mark (record (mark (record r { code = code }) 0x00) { sync = sync }) 0x01) {
                schema_id = schema;
              })
              0x05)
            (length (payload code sync schema (data_body data'))) data' k d t e in
        simp
          (
            parse,
            c,
            laws.map_type,
            a,
            header_loop-payload r code sync schema (data_body data') x y z,
            p,
          )
          refl
