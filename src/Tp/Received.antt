-- ===== src/Tp/Received.antt =====
-- `tp_reply` of include/tp.h on a buffer that begins with a whole reply, and on one that has only a part.
use bee_c.Base.{
  ℕ, ◌+◌, ◌-◌, ◌%◌, ◌^◌, ◌<◌, ◌≡◌, refl, ap, ◌∙◌, true, false, some, List, [], ◌++◌, append_assoc,
  length, length-append, ltb, ◌==◌, arith,
}
use bee_c.Msgpuck.{Msgpuck, MpType}
use bee_c.Reply.{is_type}
use bee_c.Reply.RoundTrip.{Decodes, fields, payload, data_body}
use bee_c.Tp.Response.{zero_response, header_read, tp_reply}
use bee_c.Tp.Answer.{Readable, answered, with_header, reply_header-fields, header_read-data}

-- A length of five bytes that is read as the number n, with bytes behind it that the codec checks.
pub record Begins (mp : Msgpuck) (prefix : List ℕ) (n : ℕ) (rest : List ℕ) : Type 0 where
  pub five : length prefix ≡ 5
  pub type : is_type mp MpType.mp_uint (prefix ++ rest) ≡ true
  pub value : mp.decode_uint (prefix ++ rest) ≡ (n, rest)
  pub checks : (j : ℕ) × (mp.check (prefix ++ rest) ≡ some j)

module _ (mp : Msgpuck) where
  -- While the buffer has the length of a reply, below 2 ^ 31, and less than the bytes that it
  -- asks for, the result is 0 and nothing of the reply is filled in.
  pub tp_reply-Partial :
      (prefix rest : List ℕ) (n : ℕ)
      → Begins mp prefix n rest
      → n < 2 ^ 31
      → length rest < n
      → tp_reply mp (prefix ++ rest) ≡ (some 0, zero_response)
  unfolding tp_reply
  tp_reply-Partial prefix rest n b small short =
      let size = length (prefix ++ rest) in
      let total : size ≡ 5 + length rest = omega (arith, length-append prefix rest, b.five) in
      let some_bytes : (size == 0) ≡ false = ground arith in
      let part : ltb size ((n % 2 ^ 32 + (size - length rest)) % 2 ^ 32) ≡ true = ground arith in
      simp (tp_reply, some_bytes, b.checks.1, b.type, b.value, part) refl

  -- On a buffer that begins with what the server writes for a result, where the codec decodes
  -- what it encodes and takes the parts as whole values, the parser returns the size of the reply
  -- with its length, and the response has the code, the id, the data with their end, and the
  -- iterator at the beginning of the tuples, whatever stands behind the reply.
  pub tp_reply-Answered :
      (laws : Decodes mp) (prefix data' first tail : List ℕ) (code sync schema n : ℕ)
      → let buf = payload mp code sync schema (data_body mp data') in
        Readable mp code sync schema n data' first tail
        → Begins mp prefix (length buf) (buf ++ tail)
        → tp_reply mp (prefix ++ (buf ++ tail))
          ≡ (some (5 + length buf), answered mp code sync n data' first tail)
  unfolding tp_reply
  tp_reply-Answered laws prefix data' first tail code sync schema n x b =
      let body = data_body mp data' in
      let buf = payload mp code sync schema body in
      let p = body ++ tail in
      let size = length (prefix ++ (buf ++ tail)) in
      let small = x.size_fits in
      let total : size ≡ 5 + (length buf + length tail) =
        omega (arith, length-append prefix (buf ++ tail), length-append buf tail, b.five) in
      let rest_size : length (buf ++ tail) ≡ length buf + length tail = length-append buf tail in
      let some_bytes : (size == 0) ≡ false = ground arith in
      let len : length buf % 2 ^ 32 ≡ length buf = omega arith in
      let enough : ltb size ((length buf + (size - length (buf ++ tail))) % 2 ^ 32) ≡ false =
        ground arith in
      let shape : buf ++ tail ≡ mp.encode_map 3 ++ fields mp code sync schema p =
        simp append_assoc refl in
      let decoded : mp.decode_map (buf ++ tail) ≡ (3, fields mp code sync schema p) =
        ap mp.decode_map shape ∙ laws.map_value 3 _ (omega arith) in
      let map : is_type mp MpType.mp_map (buf ++ tail) ≡ true =
        ap (is_type mp MpType.mp_map) shape ∙ laws.map_type 3 _ in
      let header =
        reply_header-fields mp laws code sync schema p x.code_fits x.sync_fits (x.skips p) in
      let pre = prefix ++ payload mp code sync schema [] in
      let whole : size ≡ length (pre ++ p) = ap length (simp append_assoc refl) in
      let reach : length pre + length body ≡ length buf + 5 =
        omega (arith, length-append pre p, length-append body tail) in
      let result = answered mp code sync n data' first tail in
      let read : header_read mp size (length buf) (some p, with_header mp code sync)
          ≡ (some (length buf + 5), result) =
        ap (λ k. header_read mp k (length buf) (some p, with_header mp code sync)) whole
        ∙ header_read-data mp laws code sync schema n (length buf) data' first tail pre
            (with_header mp code sync) x reach in
      let same : length buf + 5 ≡ 5 + length buf = omega arith in
      simp
        (
          tp_reply, some_bytes, b.checks.1, b.type, b.value, len, enough, x.head_checks.1, map,
          decoded, header,
        )
        (read ∙ ap (λ k. (some k, result)) same)
