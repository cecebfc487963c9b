-- ===== src/Rpl/Tests.antt =====
-- A small file, with a checksum that adds up the bytes.
use bee_c.Base.{ℕ, zero, suc, ◌+◌, ◌≡◌, refl, true, some, List, [], ◌∷◌, ◌++◌, arith}
use bee_c.Rpl.{File, Log, LogError, LogType, row, at_end, ahead, log_read, log_open}
use bee_c.Rpl.Marker.{marker_bytes, Clear}
use bee_c.Rpl.Records.{IsRow, Corrupt, behind_row, log_read-row, log_read-Corrupt}
use bee_c.Rpl.Whole.{log_bytes, read_all, log_read-unchecked}
use bee_c.Rpl.Opened.{file_bytes, log_open-read_all}

abbrev sum : List ℕ → ℕ
sum [] = 0
sum (c ∷ cs) = c + sum cs

-- The header of the two bytes 5 and 6: the sums are 13 and 11.
abbrev header : List ℕ
header =
    13 ∷ 0 ∷ 0 ∷ 0 ∷ 0 ∷ 0 ∷ 0 ∷ 0 ∷ 0 ∷ 0 ∷ 0 ∷ 0 ∷ 0 ∷ 0 ∷ 0 ∷ 0 ∷ 0 ∷ 0 ∷ 0 ∷ 0 ∷ 2 ∷ 0 ∷ 0 ∷ 0
    ∷ 11 ∷ 0 ∷ 0 ∷ 0 ∷ []

abbrev two : List ℕ
two = 5 ∷ 6 ∷ []

two-IsRow : IsRow sum header two
two-IsRow = record {
  size = refl;
  length_field = refl;
  some_data = omega arith;
  header_sum = refl;
  data_sum = refl;
}

abbrev log_of : List ℕ → Log
log_of bytes = record {
  fd_open = true;
  file = record { bytes = bytes; at = 0 };
  current_offset = 0;
  offset = 0;
  hdr = [];
  error = LogError.eok;
}

-- One byte in front of the marker.
abbrev junk : List ℕ
junk = 237 ∷ []

junk-Clear : Clear junk
junk-Clear zero h = refl
junk-Clear (suc i) h = absurd (omega arith)

abbrev behind_junk : List ℕ → List ℕ → List ℕ
behind_junk data' tail = junk ++ (marker_bytes ++ (header ++ (data' ++ tail)))

log_read-row_example :
    (log_read sum true (log_of (behind_junk two (9 ∷ [])))
      ≡ (row two, behind_row sum (log_of (behind_junk two (9 ∷ []))) junk header two))
    × (ahead (behind_row sum (log_of (behind_junk two (9 ∷ []))) junk header two).file ≡ 9 ∷ [])
log_read-row_example =
    log_read-row sum (log_of (behind_junk two (9 ∷ []))) junk header two (9 ∷ []) refl
      (omega arith, tt) junk-Clear two-IsRow

log_read-Corrupt_example : Corrupt sum (log_read sum true (log_of (behind_junk (5 ∷ 7 ∷ []) [])))
log_read-Corrupt_example =
    log_read-Corrupt sum (log_of (behind_junk (5 ∷ 7 ∷ []) [])) junk header (5 ∷ 7 ∷ []) [] refl
      (omega arith, tt) junk-Clear refl refl (omega arith) refl

-- Four bytes that are no marker at all.
abbrev unmarked : Log
unmarked = log_of (behind_junk two (1 ∷ 2 ∷ 3 ∷ 4 ∷ []))

log_read-unchecked_example :
    let (r, l') = log_read sum true unmarked in
    let (r', l'') = log_read sum true l' in
    (r ≡ row two) × (r' ≡ at_end) × (l''.error ≡ LogError.eok)
log_read-unchecked_example =
    log_read-unchecked sum unmarked junk header two (1 ∷ 2 ∷ 3 ∷ 4 ∷ []) refl (omega arith, tt)
      junk-Clear two-IsRow refl refl

-- Two records, with the header "a" of the file.
abbrev records : List (List ℕ × List ℕ)
records = (header, two) ∷ (header, two) ∷ []

abbrev log_file : File
log_file = record {
  bytes = file_bytes LogType.xlog ((97 ∷ []) ∷ []) (log_bytes sum records);
  at = 0;
}

log_open-read_all_example :
    (opened : Log) × (last : Log) × (log_open (some log_file) LogType.xlog (log_of [])
      ≡ (true, opened))
    × (read_all sum 3 opened ≡ (two ∷ two ∷ [], some (at_end, last)))
    × (last.error ≡ LogError.eok)
log_open-read_all_example =
    log_open-read_all sum LogType.xlog ((97 ∷ []) ∷ []) records (log_of []) log_file tt refl
      (record { one = (refl, tt); fits = omega arith; filled = refl }, tt)
      (two-IsRow, (two-IsRow, tt))
