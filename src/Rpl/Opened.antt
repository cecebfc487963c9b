-- ===== src/Rpl/Opened.antt =====
-- A whole file of a log: opened and read to its end.
use bee_c.Base.{
  ℕ, zero, suc, ◌+◌, ◌-◌, ◌<◌, ◌≡◌, refl, sym, ap, ◌∙◌, true, false, some, List, [], ◌∷◌, ◌++◌,
  append_assoc, length, length-append, ◌==◌, arith,
}
use bee_c.Rpl.{
  File, Log, at_end, ahead, LogType, fgets, line_of, unless_empty, version, is_blank, after_line,
  passed, skip_headers, lines_read, headers_passed, log_open, log_open_at,
}
use bee_c.Rpl.Records.{ahead-moved}
use bee_c.Rpl.Whole.{log_bytes, rows_of, AllRows, read_all, read_all-log}

abbrev pub OneLine : List ℕ → Type 0
OneLine [] = Unit {0}
OneLine (c ∷ cs) = ((c == 10) ≡ false) × OneLine cs

line_of-line :
    (k : ℕ) (line post : List ℕ)
    → OneLine line
    → length line < k
    → line_of k (line ++ (10 ∷ post)) ≡ line ++ (10 ∷ [])
line_of-line zero line post one h = absurd (omega arith)
line_of-line (suc k) [] post one h = refl
line_of-line (suc k) (c ∷ cs) post (n, one) h =
    simp n (ap (λ v. c ∷ v) (line_of-line k cs post one (omega arith)))

unless_empty-line : (line : List ℕ) → unless_empty (line ++ (10 ∷ [])) ≡ some (line ++ (10 ∷ []))
unless_empty-line [] = refl
unless_empty-line (c ∷ cs) = refl

-- Where a file stands behind a line.
abbrev behind_line : File → List ℕ → File
behind_line f line = record f { at = f.at + length (line ++ (10 ∷ [])) }

fgets-line :
    (k : ℕ) (f : File) (line post : List ℕ)
    → ahead f ≡ line ++ (10 ∷ post)
    → OneLine line
    → length line < k
    → fgets (suc k) f ≡ (some (line ++ (10 ∷ [])), behind_line f line)
unfolding fgets
fgets-line k f line post e one h =
    let got : line_of k (ahead f) ≡ line ++ (10 ∷ []) =
      ap (line_of k) e ∙ line_of-line k line post one h in
    let size : suc k - 1 ≡ k = omega arith in
    rw size (
      ap (λ v. (unless_empty v, record f { at = f.at + length v })) got
      ∙ ap (λ v. (v, behind_line f line)) (unless_empty-line line))

ahead-line :
    (f : File) (line post : List ℕ)
    → ahead f ≡ line ++ (10 ∷ post)
    → ahead (behind_line f line) ≡ post
ahead-line f line post e =
    ahead-moved f (length (line ++ (10 ∷ []))) (line ++ (10 ∷ [])) post
      (e ∙ sym (append_assoc line (10 ∷ []) post)) refl

-- The headers, which are not blank and fit the array, with a blank line behind them.
abbrev pub header_bytes : List (List ℕ) → List ℕ → List ℕ
header_bytes [] tail = 10 ∷ tail
header_bytes (h ∷ hs) tail = h ++ (10 ∷ header_bytes hs tail)

pub record IsHeader (h : List ℕ) : Type 0 where
  pub one : OneLine h
  pub fits : length h < 255
  pub filled : is_blank (h ++ (10 ∷ [])) ≡ false

abbrev pub AllHeaders : List (List ℕ) → Type 0
AllHeaders [] = Unit {0}
AllHeaders (h ∷ hs) = IsHeader h × AllHeaders hs

headers-passed :
    (hs : List (List ℕ)) (n : ℕ) (f : File) (tail : List ℕ)
    → ahead f ≡ header_bytes hs tail
    → AllHeaders hs
    → length hs < n
    → (f' : File) × (skip_headers n f ≡ passed f') × (ahead f' ≡ tail)
unfolding skip_headers
headers-passed hs zero f tail e all h = absurd (omega arith)
headers-passed [] (suc n) f tail e all h = (
  behind_line f [],
  ap (λ x. after_line x.0 x.1 (skip_headers n x.1)) (fgets-line 255 f [] tail e tt (omega arith)),
  ahead-line f [] tail e,
)
headers-passed (line ∷ hs) (suc n) f tail e (is_header, all) h =
    let reads = fgets-line 255 f line (header_bytes hs tail) e is_header.one is_header.fits in
    let next = behind_line f line in
    let (f', skips, left) =
      headers-passed hs n next tail (ahead-line f line (header_bytes hs tail) e) all
        (omega arith) in
    (
      f',
      ap (λ x. after_line x.0 x.1 (skip_headers n x.1)) reads ∙ simp is_header.filled refl ∙ skips,
      left,
    )

length-headers : (hs : List (List ℕ)) (tail : List ℕ) → length hs < length (header_bytes hs tail)
length-headers [] tail = omega arith
length-headers (h ∷ hs) tail =
    omega (arith, length-append h (10 ∷ header_bytes hs tail), length-headers hs tail)

-- The name of a type, without the end of its line.
abbrev pub name_of_type : LogType → List ℕ
name_of_type LogType.log_none = []
name_of_type LogType.xlog = 88 ∷ 76 ∷ 79 ∷ 71 ∷ []
name_of_type LogType.snapshot = 83 ∷ 78 ∷ 65 ∷ 80 ∷ []

abbrev version_name : List ℕ
version_name = 48 ∷ 46 ∷ 49 ∷ 49 ∷ []

-- The two types of files.
abbrev pub IsType : LogType → Type 0
IsType LogType.log_none = ⊥
IsType _ = Unit {0}

abbrev pub file_bytes : LogType → List (List ℕ) → List ℕ → List ℕ
file_bytes type hs tail = name_of_type type ++ (10 ∷ (version_name ++ (10 ∷ header_bytes hs tail)))

name-OneLine : (type : LogType) → OneLine (name_of_type type) × (length (name_of_type type) < 31)
name-OneLine LogType.log_none = (tt, omega arith)
name-OneLine LogType.xlog = ((refl, (refl, (refl, (refl, tt)))), omega arith)
name-OneLine LogType.snapshot = ((refl, (refl, (refl, (refl, tt)))), omega arith)

lines-accepted :
    (type : LogType) (l : Log) (f : File)
    → IsType type
    → lines_read type l (some (name_of_type type ++ (10 ∷ []))) (some version) (passed f)
      ≡ headers_passed l (passed f)
unfolding lines_read
lines-accepted LogType.log_none l f is_type = absurd is_type
lines-accepted LogType.xlog l f is_type = refl
lines-accepted LogType.snapshot l f is_type = refl

-- The file of a log or a snapshot is opened, whatever its headers say, and stands behind them.
pub log_open-file :
    (type : LogType) (hs : List (List ℕ)) (l : Log) (f : File) (tail : List ℕ)
    → IsType type
    → ahead f ≡ file_bytes type hs tail
    → AllHeaders hs
    → (f' : File) × (log_open (some f) type l
        ≡ (true, record l { file = f'; offset = f'.at; current_offset = 0; fd_open = true }))
      × (ahead f' ≡ tail)
unfolding log_open log_open_at
log_open-file type hs l f tail is_type e all =
    let name = name_of_type type in
    let (one, fits) = name-OneLine type in
    let rest = version_name ++ (10 ∷ header_bytes hs tail) in
    let r1 = fgets-line 31 f name rest e one fits in
    let f1 = behind_line f name in
    let e1 = ahead-line f name rest e in
    let r2 =
      fgets-line 31 f1 version_name (header_bytes hs tail) e1 (refl, (refl, (refl, (refl, tt))))
        (omega arith) in
    let f2 = behind_line f1 version_name in
    let e2 = ahead-line f1 version_name (header_bytes hs tail) e1 in
    let few : length hs < suc (length (ahead f2)) =
      omega (arith, length-headers hs tail, ap length e2) in
    let (f', skips, left) = headers-passed hs (suc (length (ahead f2))) f2 tail e2 all few in
    (
      f',
      ap
            (λ x.
              let (v, g) = fgets 32 x.1 in
              lines_read type (record l { file = g }) x.0 v
                (skip_headers (suc (length (ahead g))) g))
            r1
          ∙ ap
              (λ x.
                lines_read type (record l { file = x.1 }) (some (name ++ (10 ∷ []))) x.0
                  (skip_headers (suc (length (ahead x.1))) x.1))
              r2
          ∙ ap (lines_read type (record l { file = f2 }) (some (name ++ (10 ∷ []))) (some version))
              skips
          ∙ lines-accepted type (record l { file = f2 }) f' is_type,
      left,
    )

-- Where memory is found, the file of a log or a snapshot, with any headers of fewer than 255
-- bytes, records with at least one byte of data each whose lengths and checksums are right, and
-- the marker of the end, is opened, and is then read whole: one read for each record gives its
-- data, in order, and one more the end, without an error of its own.
pub log_open-read_all :
    (crc32c : List ℕ → ℕ) (type : LogType) (hs : List (List ℕ)) (rs : List (List ℕ × List ℕ))
    (l : Log) (f : File)
    → IsType type
    → ahead f ≡ file_bytes type hs (log_bytes crc32c rs)
    → AllHeaders hs
    → AllRows crc32c rs
    → (opened : Log) × (last : Log) × (log_open (some f) type l ≡ (true, opened))
      × (read_all crc32c (suc (length rs)) opened ≡ (rows_of crc32c rs, some (at_end, last)))
      × (last.error ≡ l.error)
log_open-read_all crc32c type hs rs l f is_type e all rows =
    let (f', opens, left) = log_open-file type hs l f (log_bytes crc32c rs) is_type e all in
    let opened : Log = record l { file = f'; offset = f'.at; current_offset = 0; fd_open = true } in
    let (last, reads, kept) = read_all-log crc32c rs opened left rows in
    (opened, last, opens, reads, kept)
