-- ===== src/Request/Common.antt =====
-- What all requests share: the constants of include/bee/beer_proto.h, the header and the length
-- prefix of beer/beer_proto_internal.h, and the stream that a request is written to.
use bee_c.Base.{ℕ, ◌+◌, ◌%◌, ◌^◌, Bool, true, false, ◌&&◌, not, Option, none, some, List, ◌∷◌, ◌++◌}
use bee_c.Base.{length, ltb, leb, ◌==◌, if◌then◌else◌}
use bee_c.Msgpuck.{Msgpuck, MpType}
use bee_c.Buf.{iov_size}
use bee_c.Request.Key

-- `enum beer_request_t`, the requests of a client.
pub data Op : Type 0 where
  select insert replace update delete call_16 auth eval upsert call ping : Op

abbrev pub code_of : Op → ℕ
code_of select = 1
code_of insert = 2
code_of replace = 3
code_of update = 4
code_of delete = 5
code_of call_16 = 6
code_of auth = 7
code_of eval = 8
code_of upsert = 9
code_of call = 10
code_of ping = 64

abbrev pub is_call : Op → Bool
is_call call = true
is_call call_16 = true
is_call _ = false

-- The stream of a request: its `reqid`, and its `writev`, which answers `none` for -1.
pub record Wire (S : Type 0) : Type 0 where
  pub reqid : S → ℕ
  pub set_reqid : S → ℕ → S
  pub writev : S → List (List ℕ) → Option ℕ × S

-- `s->reqid++`
abbrev pub next : {S : Type 0} → Wire S → S → S
next w s = w.set_reqid s ((w.reqid s + 1) % 2 ^ 64)

abbrev pub type_code : MpType → ℕ
type_code MpType.mp_nil = 0
type_code MpType.mp_uint = 1
type_code MpType.mp_int = 2
type_code MpType.mp_str = 3
type_code MpType.mp_bin = 4
type_code MpType.mp_array = 5
type_code MpType.mp_map = 6
type_code MpType.mp_bool = 7
type_code MpType.mp_float = 8
type_code MpType.mp_double = 9
type_code MpType.mp_ext = 10

abbrev pub same_type : Option MpType → MpType → Bool
same_type none found = true
same_type (some type) found = type_code found == type_code type

-- Whether `mp_check` steps over exactly the n bytes that there are.
abbrev pub exactly : ℕ → Option ℕ → Bool
exactly n none = false
exactly n (some k) = not (ltb k n)

module _ (mp : Msgpuck) where
  -- `beer_object_verify`, where `none` is a type of -1; true is the result 0.
  unfoldable pub object_verify : List ℕ → Option MpType → Bool
  object_verify data' type =
      same_type type (mp.type_of data') && exactly (length data') (mp.check data')

  unfoldable pub encode_header : ℕ → ℕ → List ℕ
  encode_header code sync =
      mp.encode_map 2
      ++ mp.encode_uint Key.code
      ++ mp.encode_uint code
      ++ mp.encode_uint Key.sync
      ++ mp.encode_uint sync

  unfoldable pub encode_luint32 : ℕ → List ℕ
  encode_luint32 num =
      if leb num 0xffffffff
      then mp.store_u8 0xce ++ mp.store_u32 num
      else mp.store_u8 0xcf ++ mp.store_u64 num

  -- The vector that a request is written as: the length of what follows, and what follows.
  unfoldable pub packaged : List (List ℕ) → List (List ℕ)
  unfolding encode_luint32
  packaged parts = encode_luint32 (iov_size parts) ∷ parts
