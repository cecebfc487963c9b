-- ===== src/Rpl/Read.antt =====
-- Reading records: beerrpl/beer_log.c. A stream of the C library is its bytes and the position; a read
-- fails only for want of bytes. The checksum crc32c is code of third_party, and a parameter.
use bee_c.Base.{
  ℕ, suc, ◌+◌, ◌*◌, ◌/◌, ◌^◌, Bool, Option, none, some, List, [], ◌∷◌, length, take, drop, ◌==◌,
  if◌then◌else◌,
}

pub record File : Type 0 where
  pub bytes : List ℕ
  pub at : ℕ

-- `enum beer_log_error`
pub data LogError : Type 0 where
  eok efail ememory etype eversion ecorrupt esystem : LogError

-- `struct beer_log`; `fd_open` is whether `fd` is not NULL, and `hdr` is the last header that was read
-- whole.
pub record Log : Type 0 where
  pub fd_open : Bool
  pub file : File
  pub current_offset : ℕ
  pub offset : ℕ
  pub hdr : List ℕ
  pub error : LogError

-- The result 0 with the data, 1, and -1.
pub data Reading : Type 0 where
  row : List ℕ → Reading
  at_end wrong : Reading

-- A `uint32_t` in memory, the first byte being the lowest.
abbrev pub u32 : List ℕ → ℕ
u32 (a ∷ b ∷ c ∷ d ∷ rest) = a + 256 * (b + 256 * (c + 256 * d))
u32 _ = 0

abbrev pub marker_v11 : ℕ
marker_v11 = 3121327085

abbrev pub marker_eof_v11 : ℕ
marker_eof_v11 = 279816990

abbrev pub ahead : File → List ℕ
ahead f = drop f.at f.bytes

-- `fread` of one item of some size: no item of size 0 is ever read, and a short one is passed over.
unfoldable pub fread : ℕ → File → Option (List ℕ) × File
fread size f =
    let got = take size (ahead f) in
    (
      if size == 0 then none else if length got == size then some got else none,
      record f { at = f.at + length got },
    )

abbrev pub log_seterr : Log → LogError → Reading × Log
log_seterr l e = (wrong, record l { error = e })

-- The marker of the end, once it was read.
abbrev pub eof_marked : Log → Option (List ℕ) → Reading × Log
eof_marked l none = log_seterr l esystem
eof_marked l (some bs) =
    if u32 bs == marker_eof_v11
    then (at_end, record l { offset = l.file.at })
    else log_seterr l ecorrupt

unfoldable pub log_eof : Log → Reading × Log
unfolding fread
log_eof l =
    let (bs, f) = fread 4 (record (l.file) { at = l.offset }) in
    let marked = eof_marked (record l { file = f }) bs in
    if l.file.at == l.offset + 4 then marked else (at_end, l)

-- How many bytes stand before the end of the first marker, the last four bytes read being a number;
-- `none` where there is no marker.
unfoldable pub seek_marker : ℕ → List ℕ → Option ℕ
seek_marker marker [] = if marker == marker_v11 then some 0 else none
seek_marker marker (c ∷ cs) =
    let later = seek_marker (marker / 256 + c * 2 ^ 24) cs in
    if marker == marker_v11 then some 0 else elim later [ none ↦ none | some k ↦ some (suc k) ]

module _ (crc32c : List ℕ → ℕ) (granted : Bool) where
  -- The fields of a header of 28 bytes.
  abbrev pub crc32_hdr : List ℕ → ℕ
  crc32_hdr h = u32 h

  abbrev pub len_field : List ℕ → ℕ
  len_field h = u32 (drop 20 h)

  abbrev pub crc32_data : List ℕ → ℕ
  crc32_data h = u32 (drop 24 h)

  unfoldable pub data_read : Log → Option (List ℕ) → Reading × Log
  unfolding log_eof
  data_read l none = log_eof l
  data_read l (some bs) =
      if crc32c bs == crc32_data l.hdr then (row bs, l) else log_seterr l ecorrupt

  unfoldable pub row_header_read : Log → Option (List ℕ) → Reading × Log
  unfolding data_read log_eof fread
  row_header_read l none = log_eof l
  row_header_read l (some h) =
      let l' = record l { hdr = h; offset = l.file.at } in
      let (bs, f) = fread (len_field h) l.file in
      let later = data_read (record l' { file = f }) bs in
      if crc32c (drop 4 h) == crc32_hdr h
      then if granted then later else log_seterr l' ememory
      else log_seterr l' ecorrupt

  -- Once the search for the marker ended.
  unfoldable pub marker_sought : Log → Option ℕ → Reading × Log
  unfolding row_header_read log_eof fread
  marker_sought l none =
      log_eof (record l { file = record (l.file) { at = l.file.at + length (ahead l.file) } })
  marker_sought l (some k) =
      let (h, f) = fread 28 (record (l.file) { at = l.file.at + k }) in
      row_header_read (record l { file = f }) h

  unfoldable pub marker_read : Log → Option (List ℕ) → Reading × Log
  unfolding marker_sought seek_marker log_eof
  marker_read l none = log_eof l
  marker_read l (some bs) = marker_sought l (seek_marker (u32 bs) (ahead l.file))

  -- `beer_log_read`
  unfoldable pub log_read : Log → Reading × Log
  unfolding marker_read fread
  log_read l =
      let (bs, f) = fread 4 l.file in
      marker_read (record l { file = f; current_offset = l.file.at }) bs
