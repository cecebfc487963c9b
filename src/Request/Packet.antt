-- ===== src/Request/Packet.antt =====
-- A request as the protocol has it: a length, a header, and a map of fields.
use bee_c.Base.{ℕ, ◌^◌, ◌≡◌, refl, ap, ap₂, ◌∙◌, Bool, true, false, Option, none, arith}
use bee_c.Base.{
  List, [], ◌∷◌, ◌++◌, append-nil, append_assoc, length, concat, ltb, leb, if◌then◌else◌,
}
use bee_c.Request.Key
use bee_c.Msgpuck.{Msgpuck}
use bee_c.Buf.Vector.{iov_size-eq-length}
use bee_c.Request.{Op, code_of, Wire, next, encode_header, encode_luint32, packaged, send_parts}

-- A field: its key, and the encoding of its value.
abbrev pub Field : Type 0
Field = ℕ × List ℕ

module _ (mp : Msgpuck) where
  abbrev pub pairs : List Field → List ℕ
  pairs [] = []
  pairs (f ∷ fs) = mp.encode_uint f.0 ++ (f.1 ++ pairs fs)

  abbrev pub body : List Field → List ℕ
  body fs = mp.encode_map (length fs) ++ pairs fs

  -- The length as a number of 32 bits, or of 64 where it needs them.
  abbrev pub length_prefix : ℕ → List ℕ
  length_prefix n =
      if ltb n (2 ^ 32)
      then mp.store_u8 0xce ++ mp.store_u32 n
      else mp.store_u8 0xcf ++ mp.store_u64 n

  abbrev pub framed : List ℕ → List ℕ
  framed data' = length_prefix (length data') ++ data'

  -- The map of the code and the id.
  abbrev pub header : Op → ℕ → List ℕ
  header op sync =
      mp.encode_map 2
      ++ pairs ((Key.code, mp.encode_uint (code_of op)) ∷ (Key.sync, mp.encode_uint sync) ∷ [])

  abbrev pub number : ℕ → ℕ → Field
  number key n = (key, mp.encode_uint n)

  -- The bytes of a request.
  abbrev pub packet : Op → ℕ → List Field → List ℕ
  packet op sync fs = framed (header op sync ++ body fs)

  encode_luint32-length_prefix : (n : ℕ) → encode_luint32 mp n ≡ length_prefix n
  unfolding encode_luint32
  encode_luint32-length_prefix n =
      let same : leb n 0xffffffff ≡ ltb n (2 ^ 32) = ground arith in
      ap (λ b. if b then mp.store_u8 0xce ++ mp.store_u32 n else mp.store_u8 0xcf ++ mp.store_u64 n)
        same

  pub encode_header-header :
      (op : Op) (sync : ℕ) → encode_header mp (code_of op) sync ≡ header op sync
  unfolding encode_header
  encode_header-header op sync = simp (append_assoc, append-nil) refl

  module _ {S : Type 0} (w : Wire S) where
    -- `x` is what one write of the request makes of the stream, whose id goes one up.
    abbrev pub Sends : Op → List Field → S → Option ℕ × S → Type 0
    Sends op fs s x =
        (iov : List (List ℕ)) × (concat iov ≡ packet op (w.reqid s) fs)
        × (x ≡ w.writev (next w s) iov)

    -- Where a guard does not hold, nothing is written and the result is -1.
    abbrev pub Guarded : Bool → Op → List Field → S → Option ℕ × S → Type 0
    Guarded true op fs s x = Sends op fs s x
    Guarded false op fs s x = x ≡ (none, s)

  pub concat-packaged : (parts : List (List ℕ)) → concat (packaged mp parts) ≡ framed (concat parts)
  unfolding packaged
  concat-packaged parts =
      ap (λ n. encode_luint32 mp n ++ concat parts) (iov_size-eq-length parts)
      ∙ ap (λ l. l ++ concat parts) (encode_luint32-length_prefix (length (concat parts)))

  -- A request whose parts behind the header are the body.
  pub send_parts-Sends :
      {S : Type 0} (w : Wire S) (op : Op) (fs : List Field) (s : S) (parts : List (List ℕ))
      → concat parts ≡ body fs
      → Sends w op fs s (send_parts mp w op s parts)
  send_parts-Sends w op fs s parts e = (
    packaged mp (encode_header mp (code_of op) (w.reqid s) ∷ parts),
    concat-packaged (encode_header mp (code_of op) (w.reqid s) ∷ parts)
        ∙ ap₂ (λ a b. framed (a ++ b)) (encode_header-header op (w.reqid s)) e,
    refl,
  )
