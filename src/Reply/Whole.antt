-- ===== src/Reply/Whole.antt =====
-- `beer_reply` on a buffer that begins with a whole reply, and the roll back.
use bee_c.Base.{ℕ, ◌+◌, ◌%◌, ◌^◌, ◌<◌, ◌≡◌, refl, sym, ap, ◌∙◌, Bool, true, false, some}
use bee_c.Base.{
  List, [], ◌++◌, length, length-append, take, drop, take-append, drop-append, ltb, arith,
}
use bee_c.Msgpuck.{Msgpuck, MpType}
use bee_c.Reply.{
  Reply, reply_init, going, finished, is_type, parse, received, sized, reply_from, reply_cb,
  beer_reply,
}
use bee_c.Reply.RoundTrip.{Decodes, payload, data_body, with_result, parse-payload}

-- A length of five bytes, whatever stands behind it.
pub record Prefixes (mp : Msgpuck) (prefix : List ℕ) (n : ℕ) : Type 0 where
  pub five : length prefix ≡ 5
  pub type : (rest : List ℕ) → is_type mp MpType.mp_uint (prefix ++ rest) ≡ true
  pub value : (rest : List ℕ) → (mp.decode_uint (prefix ++ rest)).0 ≡ n
  pub type' : is_type mp MpType.mp_uint prefix ≡ true
  pub value' : (mp.decode_uint prefix).0 ≡ n

-- A result of the server, as one value of the codec.
pub record Result (mp : Msgpuck) (code sync schema : ℕ) (data' : List ℕ) : Type 0 where
  pub code_fits : code < 2 ^ 64
  pub sync_fits : sync < 2 ^ 64
  pub schema_fits : schema < 2 ^ 64
  pub head_checks : (k : ℕ) × (mp.check (payload mp code sync schema (data_body mp data')) ≡ some k)
  pub body_checks : (k : ℕ) × (mp.check (data_body mp data') ≡ some k)
  pub is_array : is_type mp MpType.mp_array data' ≡ true
  pub whole : mp.next data' ≡ []

module _ (mp : Msgpuck) (granted : ℕ → Bool) where
  -- `beer_reply_from` over the bytes of a length, a payload and more.
  from_bytes :
      (r : Reply) (prefix buf rest : List ℕ) (x : ℕ × Reply)
      → Prefixes mp prefix (length buf)
      → granted (length buf) ≡ true
      → parse mp (record (reply_init r.alloc) { buf = some buf; buf_size = length buf }) buf
        ≡ going x
      → reply_from mp (reply_cb (prefix ++ (buf ++ rest))) granted r 0
        ≡ (some x.0, x.1, 5 + length buf)
  unfolding reply_from sized received finished reply_cb
  from_bytes r prefix buf rest x p g e =
      let a : take 5 (prefix ++ (buf ++ rest)) ≡ prefix =
        take-append prefix (buf ++ rest) 5 (sym p.five) in
      let b : take (length buf) (drop 5 (prefix ++ (buf ++ rest))) ≡ buf =
        ap (take (length buf)) (drop-append prefix (buf ++ rest) 5 (sym p.five))
        ∙ take-append buf rest (length buf) refl in
      simp (a, p.type', p.value', g, b, e) refl

  -- On a buffer that begins with what the server writes for a result (a length of five bytes, a
  -- header with code, sync and schema id below 2 ^ 64, and a body with one array), where the
  -- codec decodes what it encodes and takes header and body as whole values, and the memory is
  -- found, reading the reply returns 0, steps over exactly those bytes, and gives the reply with
  -- the same code, sync, schema id and array, whatever stands behind.
  pub beer_reply-whole :
      (laws : Decodes mp) (r : Reply) (prefix data' rest : List ℕ) (code sync schema : ℕ)
      → Result mp code sync schema data'
      → let buf = payload mp code sync schema (data_body mp data') in
        Prefixes mp prefix (length buf)
        → granted (length buf) ≡ true
        → beer_reply mp granted r (prefix ++ (buf ++ rest)) ≡ (
          some 0,
          some (5 + length buf),
          with_result
              (record (reply_init r.alloc) { buf = some buf; buf_size = length buf })
              code
              sync
              schema
              data',
        )
  unfolding beer_reply
  beer_reply-whole laws r prefix data' rest code sync schema h p g =
      let buf = payload mp code sync schema (data_body mp data') in
      let parsed =
        parse-payload mp laws
          (record (reply_init r.alloc) { buf = some buf; buf_size = length buf }) code sync schema
          data' h.head_checks.0 h.body_checks.0 h.code_fits h.sync_fits h.schema_fits
          h.head_checks.1 h.body_checks.1 h.is_array h.whole in
      let size : length (prefix ++ (buf ++ rest)) ≡ 5 + (length buf + length rest) =
        omega (arith, p.five, length-append prefix (buf ++ rest), length-append buf rest) in
      let long : ltb (length (prefix ++ (buf ++ rest))) 5 ≡ false = ground (arith, size) in
      let all : ltb (length (prefix ++ (buf ++ rest))) ((length buf + 5) % 2 ^ 64) ≡ false =
        ground (arith, size) in
      simp (p.type, p.value, long, all, from_bytes r prefix buf rest _ p g parsed) refl
