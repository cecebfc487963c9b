-- ===== src/Rpl/Open.antt =====
-- Opening a log: beerrpl/beer_log.c. Whether `fopen` succeeds, and what the file holds, is given.
use bee_c.Base.{
  ℕ, zero, suc, ◌+◌, ◌-◌, Bool, true, false, not, ◌||◌, ◌&&◌, leb, Option, none, some, List, [],
  ◌∷◌, length, ◌==◌, if◌then◌else◌,
}
use bee_c.Request.Auth.{same_bytes}
use bee_c.Rpl.Read.{File, Log, LogError, efail, etype, eversion, esystem, ahead}

-- `enum beer_log_type`
pub data LogType : Type 0 where
  log_none xlog snapshot : LogType

-- What `strcmp` sees of a line.
abbrev pub until_nul : List ℕ → List ℕ
until_nul [] = []
until_nul (c ∷ cs) = let rest = until_nul cs in if c == 0 then [] else c ∷ rest

-- At most k bytes, up to and with the first end of a line.
abbrev pub line_of : ℕ → List ℕ → List ℕ
line_of zero bs = []
line_of (suc k) [] = []
line_of (suc k) (c ∷ cs) = let rest = line_of k cs in if c == 10 then c ∷ [] else c ∷ rest

abbrev pub unless_empty : List ℕ → Option (List ℕ)
unless_empty [] = none
unless_empty (c ∷ cs) = some (c ∷ cs)

-- `fgets` into an array of some size.
unfoldable pub fgets : ℕ → File → Option (List ℕ) × File
fgets size f =
    let got = line_of (size - 1) (ahead f) in
    (unless_empty got, record f { at = f.at + length got })

-- "XLOG", "SNAP" and "0.11", each with the end of its line.
abbrev pub magic : LogType → List ℕ
magic LogType.log_none = []
magic LogType.xlog = 88 ∷ 76 ∷ 79 ∷ 71 ∷ 10 ∷ []
magic LogType.snapshot = 83 ∷ 78 ∷ 65 ∷ 80 ∷ 10 ∷ []

abbrev pub version : List ℕ
version = 48 ∷ 46 ∷ 49 ∷ 49 ∷ 10 ∷ []

abbrev pub is_blank : List ℕ → Bool
is_blank bs = same_bytes (until_nul bs) (10 ∷ []) || same_bytes (until_nul bs) (13 ∷ 10 ∷ [])

-- A file behind its headers, one that ends before a blank line, or no fuel.
pub data Headers : Type 0 where
  passed missing : File → Headers
  no_fuel : Headers

abbrev pub after_line : Option (List ℕ) → File → Headers → Headers
after_line none f later = missing f
after_line (some bs) f later = if is_blank bs then passed f else later

unfoldable pub skip_headers : ℕ → File → Headers
unfolding fgets
skip_headers zero f = no_fuel
skip_headers (suc n) f = let (line, f') = fgets 256 f in after_line line f' (skip_headers n f')

-- `beer_log_open_err`, with the close.
abbrev pub log_open_err : Log → LogError → Bool × Log
log_open_err l e = (false, record l { error = e; fd_open = false })

abbrev pub headers_passed : Log → Headers → Bool × Log
headers_passed l (passed f) =
    (true, record l { file = f; offset = f.at; current_offset = 0; fd_open = true })
headers_passed l (missing f) = log_open_err (record l { file = f }) efail
headers_passed l no_fuel = (false, l)

-- Once the type and the version were read.
unfoldable pub lines_read : LogType → Log → Option (List ℕ) → Option (List ℕ) → Headers → Bool × Log
lines_read type l none v headers = log_open_err l esystem
lines_read type l (some t) none headers = log_open_err l esystem
lines_read type l (some t) (some v) headers =
    if not (same_bytes (until_nul t) (magic type))
    then log_open_err l etype
    else if not (same_bytes (until_nul v) version)
    then log_open_err l eversion
    else headers_passed l headers

-- Each line takes a byte at least, so that there are fewer lines than the fuel.
unfoldable pub log_open_at : LogType → Log → File → Bool × Log
unfolding lines_read skip_headers fgets
log_open_at type l f =
    let (t, f1) = fgets 32 f in
    let (v, f2) = fgets 32 f1 in
    lines_read type (record l { file = f2 }) t v (skip_headers (suc (length (ahead f2))) f2)

-- `beer_log_open`; true is the result 0.
unfoldable pub log_open : Option File → LogType → Log → Bool × Log
unfolding log_open_at
log_open none type l = log_open_err l esystem
log_open (some f) type l = log_open_at type l f

-- `beer_log_seek`, which is given no position that `fseeko` refuses.
unfoldable pub log_seek : Log → ℕ → Log
log_seek l offset = record l { offset = offset; file = record (l.file) { at = offset } }

abbrev pub lower : ℕ → ℕ
lower c = if leb 65 c && leb c 90 then c + 32 else c

-- `strcasecmp`
abbrev pub same_letters : List ℕ → List ℕ → Bool
same_letters [] [] = true
same_letters [] (b ∷ bs) = false
same_letters (a ∷ as') [] = false
same_letters (a ∷ as') (b ∷ bs) = lower a == lower b && same_letters as' bs

-- `strrchr` for a dot: the string from the last one.
abbrev pub from_dot : List ℕ → Option (List ℕ)
from_dot [] = none
from_dot (c ∷ cs) = elim (from_dot cs) [
  | some ext ↦ some ext
  | none ↦ if c == 46 then some (c ∷ cs) else none
]

-- ".snap" and ".xlog"
abbrev pub snap_ext : List ℕ
snap_ext = 46 ∷ 115 ∷ 110 ∷ 97 ∷ 112 ∷ []

abbrev pub xlog_ext : List ℕ
xlog_ext = 46 ∷ 120 ∷ 108 ∷ 111 ∷ 103 ∷ []

abbrev pub type_of_ext : Option (List ℕ) → LogType
type_of_ext none = LogType.log_none
type_of_ext (some ext) =
    if same_letters ext snap_ext
    then LogType.snapshot
    else if same_letters ext xlog_ext
    then LogType.xlog
    else LogType.log_none

-- `beer_log_guess`, by the name of the file.
unfoldable pub log_guess : Option (List ℕ) → LogType
log_guess none = LogType.xlog
log_guess (some file) = type_of_ext (from_dot file)
