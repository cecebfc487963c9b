-- ===== src/Tp/State.antt =====
-- `struct tp` of include/tp.h: the buffer, its growth, and the two fields of a request that are
-- written late, its length and its id.
use bee_c.Base.{ℕ, ◌+◌, ◌-◌, ◌*◌, ◌%◌, ◌^◌, Option, none, some, List, ◌∷◌, ◌++◌}
use bee_c.Base.{length, ltb, leb, if◌then◌else◌}
use bee_c.Base.Memory.{write_at}
use bee_c.Msgpuck.{Msgpuck}
use bee_c.Request.Key

-- `p->reserve` with its `obj`: from the buffer, the position and the bytes wanted to the new buffer.
abbrev pub Reserve : Type 0
Reserve = List ℕ → ℕ → ℕ → Option (List ℕ)

-- `buf` is the bytes from `p->s` to `p->e`; the other pointers are offsets from `p->s`, which stay
-- as they are where `tp_ensure` moves the pointers to a new buffer.
pub record Tp : Type 0 where
  pub buf : List ℕ
  pub pos : ℕ
  pub size : Option ℕ
  pub sync : Option ℕ
  pub reserve : Option Reserve

-- What a call makes: a pointer into the buffer, NULL, or a fault, which is an assertion that fails
-- or a pointer that leaves the buffer.
pub data Out : Type 0 where
  done : ℕ → Tp → Out
  null : Tp → Out
  fault : Out

unfoldable pub tp_size : Tp → ℕ
tp_size p = length p.buf

unfoldable pub tp_used : Tp → ℕ
tp_used p = p.pos

unfoldable pub tp_unused : Tp → ℕ
tp_unused p = length p.buf - p.pos

unfoldable pub tp_init : List ℕ → Option Reserve → Tp
tp_init buf reserve = record { buf = buf; pos = 0; size = none; sync = none; reserve = reserve }

-- Over `realloc` of the C library.
unfoldable pub tp_realloc : (List ℕ → ℕ → Option (List ℕ)) → Reserve
tp_realloc realloc buf pos required =
    let doubled = (length buf * 2) % 2 ^ 64 in
    realloc buf (if ltb doubled required then (length buf + required) % 2 ^ 64 else doubled)

-- `none` is -1.
unfoldable pub tp_ensure : Tp → ℕ → Option ℕ × Tp
unfolding tp_unused
tp_ensure p size = if leb size (tp_unused p) then (some 0, p) else elim p.reserve [
  | none ↦ (none, p)
  | some f ↦ elim (f p.buf p.pos size) [
    | none ↦ (none, p)
    | some np ↦ (some (length np), record p { buf = np })
  ]
]

-- A write of bytes at an offset; `none` is one that leaves the buffer.
unfoldable pub store : Tp → ℕ → List ℕ → Option Tp
store p off bs =
    if leb (off + length bs) (length p.buf)
    then some (record p { buf = write_at p.buf off bs })
    else none

-- An `int` as a `size_t`.
abbrev pub int_size : ℕ → ℕ
int_size n = if ltb (n % 2 ^ 32) (2 ^ 31) then n % 2 ^ 32 else n % 2 ^ 32 + (2 ^ 64 - 2 ^ 32)

module _ (mp : Msgpuck) where
  -- The tag of a 32-bit number, and the number with its bytes swapped.
  abbrev pub five : ℕ → List ℕ
  five n = 0xce ∷ mp.store_u32 (n % 2 ^ 32)

  unfoldable pub tp_add : Tp → ℕ → Out
  unfolding store
  tp_add p size = elim p.size [
    | none ↦ fault
    | some field ↦ elim (store p field (five (p.pos + size + 2 ^ 32 - (field + 5)))) [
      | none ↦ fault
      | some q ↦
          if ltb (length p.buf) (p.pos + size)
          then fault
          else done p.pos (record q { pos = p.pos + size })
    ]
  ]

  -- `tpi_sizeof_header`
  unfoldable pub sizeof_header : ℕ → ℕ
  sizeof_header code =
      5
      + mp.sizeof_map 2
      + mp.sizeof_uint Key.code
      + mp.sizeof_uint code
      + mp.sizeof_uint Key.sync
      + 5

  -- The header up to the number of the id.
  abbrev pub header_start : ℕ → List ℕ
  header_start code =
      mp.encode_map 2 ++ mp.encode_uint Key.code ++ mp.encode_uint code ++ mp.encode_uint Key.sync

  -- `tpi_encode_header`: the offset behind the header.
  unfoldable pub tpi_encode_header : Tp → ℕ → Option (ℕ × Tp)
  unfolding store
  tpi_encode_header p code =
      let h = p.pos + 5 + length (header_start code) in
      elim (store (record p { size = some p.pos; sync = some h }) (p.pos + 5)
        (header_start code ++ five 0)) [ none ↦ none | some q ↦ some (h + 5, q) ]

  -- The body of a request and its `tp_add`, once there is room.
  unfoldable pub started : ℕ → ℕ → List ℕ → Option ℕ × Tp → Out
  unfolding tpi_encode_header tp_add
  started code total body (none, p) = null p
  started code total body (some n, p) = elim (tpi_encode_header p code) [
    | none ↦ fault
    | some (h, q) ↦ elim (store q h body) [ none ↦ fault | some r ↦ tp_add r total ]
  ]

  -- What all functions that begin a request do, with the code, the size that they compute for the
  -- body, and the bytes that they write of it.
  unfoldable pub begin_request : Tp → ℕ → ℕ → List ℕ → Out
  unfolding tp_ensure started sizeof_header
  begin_request p code sz body =
      let total = int_size (sz + sizeof_header code) in started code total body (tp_ensure p total)

  unfoldable pub extended : ℕ → List ℕ → Option ℕ × Tp → Out
  unfolding tp_add store
  extended total bytes (none, p) = null p
  extended total bytes (some n, p) = elim (store p p.pos bytes) [
    | none ↦ fault
    | some q ↦ tp_add q total
  ]

  -- What all functions that add to a request do.
  unfoldable pub extend : Tp → ℕ → List ℕ → Out
  unfolding tp_ensure extended
  extend p sz bytes = let total = int_size sz in extended total bytes (tp_ensure p total)

  -- `tp_reqid`
  unfoldable pub tp_reqid : Tp → ℕ → Option Tp
  unfolding store
  tp_reqid p reqid = elim p.sync [ none ↦ none | some h ↦ store p h (five reqid) ]
