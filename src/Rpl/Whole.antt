-- ===== src/Rpl/Whole.antt =====
-- Reading a log to its end, as the users of beerrpl/beer_log.c do.
use bee_c.Base.{
  ℕ, zero, suc, ◌+◌, ◌<◌, ◌≡◌, refl, sym, ap, ◌∙◌, subst, Bool-cases, inl, inr, true, false, Option,
  none, some, List, [], ◌∷◌, ◌++◌, append-nil, length, drop, ◌==◌, arith,
}
use bee_c.Rpl.{
  File, Log, LogError, Reading, row, wrong, at_end, u32, ahead, marker_v11, eof_marked, log_eof,
  marker_sought, marker_read, log_read, seek_marker,
}
use bee_c.Rpl.Marker.{AllBytes, Clear, marker_bytes}
use bee_c.Rpl.Records.{IsRow, fread-whole, ahead-moved, behind_row, log_read-row}

differ : (a b : ℕ) → b < a → (a == b) ≡ false
differ a b h = ground arith

eof-elsewhere : (l : Log) → (l.file.at == l.offset + 4) ≡ false → log_eof l ≡ (at_end, l)
unfolding log_eof
eof-elsewhere l n = rw n refl

-- The end of a log without an error of its own.
abbrev Quiet : LogError → Reading × Log → Type 0
Quiet e x = (x.0 ≡ at_end) × (x.1.error ≡ e)

abbrev pub eof_bytes : List ℕ
eof_bytes = 30 ∷ 171 ∷ 173 ∷ 16 ∷ []

eof-here :
    (l : Log)
    → (l.file.at == l.offset + 4) ≡ true
    → ahead (record (l.file) { at = l.offset }) ≡ eof_bytes
    → Quiet l.error (log_eof l)
unfolding log_eof
eof-here l y e =
    let f : File = record (l.file) { at = l.offset } in
    let reads = fread-whole f 4 eof_bytes [] e refl (omega arith) in
    rw y (
      subst (λ x. Quiet l.error (eof_marked (record l { file = x.1 }) x.0)) (sym reads)
        (refl, refl))

module _ (crc32c : List ℕ → ℕ) where
  -- A row, and what is read behind it; or the end.
  abbrev pub or_later :
      Reading × Log
      → List (List ℕ) × Option (Reading × Log)
      → List (List ℕ) × Option (Reading × Log)
  or_later (row bs, l) later = (bs ∷ later.0, later.1)
  or_later (at_end, l) later = ([], some (at_end, l))
  or_later (wrong, l) later = ([], some (wrong, l))

  -- The rows, and how it ended, unless it did not within the fuel.
  unfoldable pub read_all : ℕ → Log → List (List ℕ) × Option (Reading × Log)
  unfolding log_read
  read_all zero l = ([], none)
  read_all (suc n) l = let x = log_read crc32c true l in or_later x (read_all n x.1)

  -- A log whose last four bytes are still to be read, and are no marker of a record.
  last-sought :
      (l : Log) (tail : List ℕ)
      → ahead l.file ≡ tail
      → length tail ≡ 4
      → (u32 tail == marker_v11) ≡ false
      → log_read crc32c true l
        ≡ log_eof
            (record l { file = record (l.file) { at = l.file.at + 4 }; current_offset = l.file.at })
  unfolding log_read marker_read marker_sought seek_marker
  last-sought l tail e four other =
      let f : File = record (l.file) { at = l.file.at + 4 } in
      let m : Log = record l { file = f; current_offset = l.file.at } in
      let start : ahead l.file ≡ tail ++ [] = e ∙ sym (append-nil tail) in
      let reads = fread-whole l.file 4 tail [] start (sym four) (omega arith) in
      let nothing : ahead f ≡ [] = ahead-moved l.file 4 tail [] start (sym four) in
      let stays : f.at + length (ahead f) ≡ f.at = omega (arith, ap length nothing) in
      ap (λ x. marker_read crc32c true (record l { file = x.1; current_offset = l.file.at }) x.0)
        reads
      ∙ ap (λ v. marker_sought crc32c true m (seek_marker (u32 tail) v)) nothing
      ∙ rw other (ap (λ n. log_eof (record m { file = record f { at = n } })) stays)

  -- Where memory is found, behind a record with at least one byte of data whose length and
  -- checksums are right, four last bytes that are not the marker of a record end the log without
  -- an error, whatever they are, as they are compared with the marker of the end only where they
  -- stand right behind the header of the record.
  pub log_read-unchecked :
      (l : Log) (junk h data' tail : List ℕ)
      → ahead l.file ≡ junk ++ (marker_bytes ++ (h ++ (data' ++ tail)))
      → AllBytes junk
      → Clear junk
      → IsRow crc32c h data'
      → length tail ≡ 4
      → (u32 tail == marker_v11) ≡ false
      → let (r, l') = log_read crc32c true l in
        let (r', l'') = log_read crc32c true l' in
        (r ≡ row data') × (r' ≡ at_end) × (l''.error ≡ l.error)
  log_read-unchecked l junk h data' tail e all clear is_row four other =
      let (reads, left) = log_read-row crc32c l junk h data' tail e all clear is_row in
      let m = behind_row crc32c l junk h data' in
      let elsewhere : (m.file.at + 4 == m.offset + 4) ≡ false =
        differ (m.file.at + 4) (m.offset + 4) (omega (arith, is_row.some_data)) in
      let ends = last-sought m tail left four other ∙ eof-elsewhere _ elsewhere in
      (
        ap (λ x. x.0) reads,
        ap (λ x. (log_read crc32c true x.1).0) reads ∙ ap (λ x. x.0) ends,
        ap (λ x. (log_read crc32c true x.1).1.error) reads ∙ ap (λ x. x.1.error) ends,
      )

  eof-read : (l : Log) → ahead l.file ≡ eof_bytes → Quiet l.error (log_read crc32c true l)
  eof-read l e =
      let m : Log = record l {
        file = record (l.file) { at = l.file.at + 4 };
        current_offset = l.file.at;
      } in
      subst (Quiet l.error) (sym (last-sought l eof_bytes e refl refl))
        (elim (Bool-cases (l.file.at + 4 == l.offset + 4)) [
          | inl y ↦
              let same : l.file.at ≡ l.offset = ground arith in
              eof-here m y (subst (λ n. drop n l.file.bytes ≡ eof_bytes) same e)
          | inr n ↦ subst (Quiet l.error) (sym (eof-elsewhere m n)) (refl, refl)
        ])

  -- Headers and data, in order, with the marker of the end behind them.
  abbrev pub log_bytes : List (List ℕ × List ℕ) → List ℕ
  log_bytes [] = eof_bytes
  log_bytes ((h, data') ∷ rs) = marker_bytes ++ (h ++ (data' ++ log_bytes rs))

  abbrev pub rows_of : List (List ℕ × List ℕ) → List (List ℕ)
  rows_of [] = []
  rows_of ((h, data') ∷ rs) = data' ∷ rows_of rs

  abbrev pub AllRows : List (List ℕ × List ℕ) → Type 0
  AllRows [] = Unit {0}
  AllRows ((h, data') ∷ rs) = IsRow crc32c h data' × AllRows rs

  row-read :
      (n : ℕ) (l l' : Log) (bs : List ℕ)
      → log_read crc32c true l ≡ (row bs, l')
      → read_all (suc n) l ≡ (bs ∷ (read_all n l').0, (read_all n l').1)
  unfolding read_all
  row-read n l l' bs e = ap (λ x. or_later x (read_all n x.1)) e

  last-read :
      (l : Log)
      → (log_read crc32c true l).0 ≡ at_end
      → read_all 1 l ≡ ([], some (at_end, (log_read crc32c true l).1))
  unfolding read_all
  last-read l ends =
      let l' = (log_read crc32c true l).1 in ap (λ r. or_later (r, l') (read_all 0 l')) ends

  -- Where memory is found, a log of records whose lengths and checksums are right, with the marker of the
  -- end behind them, is read whole: one read for each record gives its data, in order, and one
  -- more the end, without an error.
  pub read_all-log :
      (rs : List (List ℕ × List ℕ)) (l : Log)
      → ahead l.file ≡ log_bytes rs
      → AllRows rs
      → (l' : Log) × (read_all (suc (length rs)) l ≡ (rows_of rs, some (at_end, l')))
        × (l'.error ≡ l.error)
  read_all-log [] l e all =
      let (ends, kept) = eof-read l e in ((log_read crc32c true l).1, last-read l ends, kept)
  read_all-log ((h, data') ∷ rs) l e (is_row, all) =
      let (reads, left) =
        log_read-row crc32c l [] h data' (log_bytes rs) e tt (λ i k. absurd (omega arith)) is_row in
      let m = behind_row crc32c l [] h data' in
      let (l', later, kept) = read_all-log rs m left all in
      (l', row-read (suc (length rs)) l m data' reads ∙ ap (λ x. (data' ∷ x.0, x.1)) later, kept)
