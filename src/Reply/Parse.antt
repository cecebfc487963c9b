-- ===== src/Reply/Parse.antt =====
-- `struct beer_reply`, `beer_reply_from` and `beer_reply`.
use bee_c.Base.{ℕ, zero, suc, ◌+◌, ◌-◌, ◌/◌, ◌%◌, ◌^◌, Bool, not, Option, none, some}
use bee_c.Base.{List, [], length, take, drop, ltb, ◌==◌, if◌then◌else◌}
use bee_c.Msgpuck.{Msgpuck, MpType}
use bee_c.Request.{type_code}

-- `error` and `data'` are the bytes between two pointers, `none` for NULL.
pub record Reply : Type 0 where
  pub alloc : Bool
  pub bitmap : ℕ
  pub buf : Option (List ℕ)
  pub buf_size : ℕ
  pub code : ℕ
  pub sync : ℕ
  pub schema_id : ℕ
  pub error : Option (List ℕ)
  pub data' : Option (List ℕ)

-- All zero but the allocation mark.
unfoldable pub reply_init : Bool → Reply
reply_init alloc = record {
  alloc = alloc;
  bitmap = 0;
  buf = none;
  buf_size = 0;
  code = 0;
  sync = 0;
  schema_id = 0;
  error = none;
  data' = none;
}

-- `bitmap | (1ULL << key)`; the shift takes its count modulo 64, as the machine does.
abbrev pub with_bit : ℕ → ℕ → ℕ
with_bit bitmap key = if (bitmap / 2 ^ (key % 64)) % 2 == 1 then bitmap else bitmap + 2 ^ (key % 64)

abbrev pub mark : Reply → ℕ → Reply
mark r key = record r { bitmap = with_bit r.bitmap key }

-- The value of a header key, `none` for a key that is none of the header's.
unfoldable pub header_value : ℕ → ℕ → Reply → Option Reply
header_value key value r =
    if key == 0x01
    then some (record r { sync = value })
    else if key == 0x00
    then some (record r { code = value })
    else if key == 0x05
    then some (record r { schema_id = value })
    else none

-- What the parser makes of the bytes, or `goto rollback` with the reply as it is then.
pub data Parsing (A : Type 0) : Type 0 where
  going : A → Parsing A
  rollback : Reply → Parsing A

abbrev pub and_then : {A : Type 0} → {B : Type 0} → Parsing A → (A → Parsing B) → Parsing B
and_then (going x) f = f x
and_then (rollback r) f = rollback r

module _ (mp : Msgpuck) where
  abbrev pub is_type : MpType → List ℕ → Bool
  is_type type p = type_code (mp.type_of p) == type_code type

  abbrev pub known : Reply → Option Reply → Parsing Reply
  known r none = rollback r
  known r (some r') = going r'

  -- `while (n-- > 0)` over the header.
  unfoldable pub header_loop : ℕ → Reply → List ℕ → Parsing (Reply × List ℕ)
  unfolding header_value
  header_loop zero r p = going (r, p)
  header_loop (suc n) r p =
      let (key, q) = mp.decode_uint p in
      let (value, rest) = mp.decode_uint q in
      if not (is_type MpType.mp_uint p)
      then rollback r
      else if not (is_type MpType.mp_uint q)
      then rollback r
      else and_then (known r (header_value (key % 2 ^ 32) value r))
          (λ r'. header_loop n (mark r' (key % 2 ^ 32)) rest)

  -- The value of a body key; the bytes of a key that is unknown are not stepped over.
  unfoldable pub body_value : ℕ → Reply → List ℕ → Parsing (Reply × List ℕ)
  body_value key r p =
      let (text, rest) = mp.decode_str p in
      if key == 0x31
      then (if is_type MpType.mp_str p
          then going (record r { error = some text; code = r.code % 2 ^ 15 }, rest)
          else rollback r)
      else if key == 0x30
      then (if is_type MpType.mp_array p
          then going (record r { data' = some (take (length p - length (mp.next p)) p) }, mp.next p)
          else rollback r)
      else going (r, p)

  unfoldable pub body_loop : ℕ → Reply → List ℕ → Parsing Reply
  unfolding body_value
  body_loop zero r p = going r
  body_loop (suc n) r p =
      let (key, q) = mp.decode_uint p in
      and_then (body_value (key % 2 ^ 32) r q) (λ x. body_loop n (mark x.0 (key % 2 ^ 32)) x.1)

  -- The body at `p`, in a buffer of `size` bytes. The results are the function's.
  unfoldable pub parse_body : ℕ → Reply → List ℕ → Parsing (ℕ × Reply)
  unfolding body_loop
  parse_body size r p =
      let (n, rest) = mp.decode_map p in
      if (size - length p) == size + 5 then going (size + 5, r) else elim (mp.check p) [
        | none ↦ rollback r
        | some _ ↦
            if is_type MpType.mp_map p
            then and_then (body_loop (n % 2 ^ 32) r rest) (λ r'. going (0, r'))
            else rollback r
      ]

  unfoldable pub parse : Reply → List ℕ → Parsing (ℕ × Reply)
  unfolding header_loop parse_body
  parse r buf =
      let (n, rest) = mp.decode_map buf in
      elim (mp.check buf) [
        | none ↦ rollback r
        | some _ ↦
            if is_type MpType.mp_map buf
            then and_then (header_loop (n % 2 ^ 32) r rest) (λ x. parse_body (length buf) x.0 x.1)
            else rollback r
      ]

-- A receive function: the bytes that it stores, or `none` for -1.
abbrev pub Receive : Type 0 → Type 0
Receive S = S → ℕ → Option (List ℕ) × S

module _ (mp : Msgpuck) {S : Type 0} (rcv : Receive S) (granted : ℕ → Bool) where
  -- The label `rollback`: all but the mark of the reply is cleared; `none` is -1.
  unfoldable pub rolled_back : Reply → S → Option ℕ × Reply × S
  unfolding reply_init
  rolled_back r s = (none, reply_init r.alloc, s)

  -- The parsed reply, or the roll back.
  unfoldable pub finished : S → Parsing (ℕ × Reply) → Option ℕ × Reply × S
  unfolding rolled_back
  finished s (rollback r) = rolled_back r s
  finished s (going (rc, r)) = (some rc, r, s)

  -- Once the rest of the reply was received; the reply has the memory for it.
  unfoldable pub received : Reply → Option (List ℕ) × S → Option ℕ × Reply × S
  unfolding parse finished rolled_back
  received r (none, s) = rolled_back r s
  received r (some buf, s) = finished s (parse mp (record r { buf = some buf }) buf)

  -- Once the length was received. The fresh memory holds anything until it is filled.
  unfoldable pub sized : Reply → Option (List ℕ) × S → Option ℕ × Reply × S
  unfolding received rolled_back
  sized r (none, s) = rolled_back r s
  sized r (some prefix, s) =
      let size = (mp.decode_uint prefix).0 in
      let r' = record r { buf_size = size } in
      if not (is_type mp MpType.mp_uint prefix)
      then rolled_back r s
      else if not (granted size)
      then rolled_back r' s
      else received (record r' { buf = some [] }) (rcv s size)

  unfoldable pub reply_from : Reply → S → Option ℕ × Reply × S
  unfolding sized reply_init
  reply_from r s = sized (reply_init r.alloc) (rcv s 5)

-- `beer_reply_cb` over the bytes `src`, by its offset.
unfoldable pub reply_cb : List ℕ → Receive ℕ
reply_cb src off size = (some (take size (drop off src)), off + size)

module _ (mp : Msgpuck) (granted : ℕ → Bool) where
  -- `beer_reply`: its result, what it stores in `off` if anything, and the reply.
  unfoldable pub beer_reply : Reply → List ℕ → Option ℕ × Option ℕ × Reply
  unfolding reply_from reply_cb
  beer_reply r buf =
      let size = length buf in
      let need = (mp.decode_uint buf).0 in
      let (rc, r', off) = reply_from mp (reply_cb buf) granted r 0 in
      if ltb size 5
      then (some 1, some (5 - size), r)
      else if not (is_type mp MpType.mp_uint buf)
      then (none, none, r)
      else if ltb size ((need + 5) % 2 ^ 64)
      then (some 1, some ((need + 5) % 2 ^ 64 - size), r)
      else (rc, some off, r')
