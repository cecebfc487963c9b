-- ===== src/Rpl/Records.antt =====
-- Records of a log: what beerrpl/beer_log.c reads of them.
use bee_c.Base.{
  ℕ, ◌+◌, ◌<◌, ◌≡◌, refl, sym, ap, ◌∙◌, subst, Bool, Bool-cases, inl, inr, ◌&&◌, true, false, some,
  List, [], ◌∷◌, ◌++◌, append_assoc, length, take, drop, take-append, drop-append, drop-drop, ◌==◌,
  arith,
}
use bee_c.Rpl.{
  File, Log, Reading, row, wrong, ecorrupt, u32, ahead, fread, row_header_read, data_read,
  marker_sought, marker_read, log_read, seek_marker,
}
use bee_c.Rpl.Marker.{AllBytes, Clear, marker_bytes, sought}

pub fread-whole :
    (f : File) (n : ℕ) (got post : List ℕ)
    → ahead f ≡ got ++ post
    → n ≡ length got
    → 0 < n
    → fread n f ≡ (some got, record f { at = f.at + n })
unfolding fread
fread-whole f n got post e l positive =
    let taken : take n (ahead f) ≡ got = ap (take n) e ∙ take-append got post n l in
    let some_size : (n == 0) ≡ false = ground arith in
    let same : (length got == n) ≡ true = ground arith in
    simp (taken, some_size, same) refl ∙ ap (λ k. (some got, record f { at = f.at + k })) (sym l)

pub ahead-moved :
    (f : File) (n : ℕ) (got post : List ℕ)
    → ahead f ≡ got ++ post
    → n ≡ length got
    → ahead (record f { at = f.at + n }) ≡ post
ahead-moved f n got post e l =
    sym (drop-drop f.at n (f.at + n) f.bytes refl) ∙ ap (drop n) e ∙ drop-append got post n l

module _ (crc32c : List ℕ → ℕ) (granted : Bool) where
  -- Where a log stands behind the header of a record, with `junk` before the marker.
  abbrev pub behind_header : Log → List ℕ → Log
  behind_header l junk = record l {
    file = record (l.file) { at = l.file.at + 4 + length junk + 28 };
    current_offset = l.file.at;
  }

  read-located :
      (l : Log) (junk h rest : List ℕ)
      → ahead l.file ≡ junk ++ (marker_bytes ++ (h ++ rest))
      → AllBytes junk
      → Clear junk
      → length h ≡ 28
      → log_read crc32c granted l ≡ row_header_read crc32c granted (behind_header l junk) (some h)
  unfolding log_read marker_read marker_sought
  read-located l junk h rest e all clear size =
      let (a, b, c, d, w, e', same, found) = sought junk (h ++ rest) all clear in
      let first = a ∷ b ∷ c ∷ d ∷ [] in
      let start : ahead l.file ≡ first ++ (w ++ (h ++ rest)) =
        e ∙ sym (append_assoc junk marker_bytes (h ++ rest)) ∙ ap (λ v. v ++ (h ++ rest)) e' in
      let f1 : File = record (l.file) { at = l.file.at + 4 } in
      let f2 : File = record (l.file) { at = l.file.at + 4 + length junk } in
      let r1 = fread-whole l.file 4 first (w ++ (h ++ rest)) start refl (omega arith) in
      let a1 : ahead f1 ≡ w ++ (h ++ rest) =
        ahead-moved l.file 4 first (w ++ (h ++ rest)) start refl in
      let r2 : seek_marker (u32 first) (ahead f1) ≡ some (length junk) =
        ap (seek_marker (u32 first)) a1 ∙ found in
      let a2 : ahead f2 ≡ h ++ rest = ahead-moved f1 (length junk) w (h ++ rest) a1 (sym same) in
      let r3 = fread-whole f2 28 h rest a2 (sym size) (omega arith) in
      ap (λ x. marker_read crc32c granted (record l { file = x.1; current_offset = l.file.at }) x.0)
        r1
      ∙ ap
          (λ k. marker_sought crc32c granted (record l { file = f1; current_offset = l.file.at }) k)
          r2
      ∙ ap
          (λ x.
            row_header_read crc32c granted (record l { file = x.1; current_offset = l.file.at })
              x.0)
          r3

  header-behind :
      (l : Log) (junk h rest : List ℕ)
      → ahead l.file ≡ junk ++ (marker_bytes ++ (h ++ rest))
      → length h ≡ 28
      → ahead (behind_header l junk).file ≡ rest
  header-behind l junk h rest e size =
      let f : File = l.file in
      ahead-moved (record f { at = f.at + 4 + length junk }) 28 h rest
        (ap (λ n. drop n f.bytes) (omega arith)
          ∙ ahead-moved (record f { at = f.at + length junk }) 4 marker_bytes (h ++ rest)
              (ahead-moved f (length junk) junk (marker_bytes ++ (h ++ rest)) e refl) refl)
        (sym size)

-- A header of 28 bytes with the length and the checksums that belong to it and to the data.
pub record IsRow (crc32c : List ℕ → ℕ) (h data' : List ℕ) : Type 0 where
  pub size : length h ≡ 28
  pub length_field : u32 (drop 20 h) ≡ length data'
  pub some_data : 0 < length data'
  pub header_sum : (crc32c (drop 4 h) == u32 h) ≡ true
  pub data_sum : (crc32c data' == u32 (drop 24 h)) ≡ true

data-whole :
    (f : File) (h data' rest : List ℕ)
    → ahead f ≡ data' ++ rest
    → u32 (drop 20 h) ≡ length data'
    → 0 < length data'
    → fread (u32 (drop 20 h)) f ≡ (some data', record f { at = f.at + length data' })
data-whole f h data' rest e fits some_data =
    fread-whole f (u32 (drop 20 h)) data' rest e fits (omega (arith, fits, some_data))
    ∙ ap (λ n. (some data', record f { at = f.at + n })) fits

module _ (crc32c : List ℕ → ℕ) where
  -- Where a log stands behind a record.
  abbrev pub behind_row : Log → List ℕ → List ℕ → List ℕ → Log
  behind_row l junk h data' = record l {
    file = record (l.file) { at = l.file.at + 4 + length junk + 28 + length data' };
    current_offset = l.file.at;
    offset = l.file.at + 4 + length junk + 28;
    hdr = h;
  }

  header-row :
      (l : Log) (h data' rest : List ℕ)
      → ahead l.file ≡ data' ++ rest
      → IsRow crc32c h data'
      → row_header_read crc32c true l (some h) ≡ (
        row data',
        record l {
          file = record (l.file) { at = l.file.at + length data' };
          offset = l.file.at;
          hdr = h;
        },
      )
  unfolding row_header_read data_read
  header-row l h data' rest e is_row =
      let reads = data-whole l.file h data' rest e is_row.length_field is_row.some_data in
      let l' : Log = record l { offset = l.file.at; hdr = h } in
      let checked : data_read crc32c true
            (record l' { file = record (l.file) { at = l.file.at + length data' } }) (some data')
          ≡ (row data', record l' { file = record (l.file) { at = l.file.at + length data' } }) =
        rw is_row.data_sum refl in
      simp is_row.header_sum
        (ap (λ x. data_read crc32c true (record l' { file = x.1 }) x.0) reads ∙ checked)

  -- Where memory is found, and no marker begins in the bytes before it, a record with at least
  -- one byte of data whose length and checksums are right is read whole, and the log stands
  -- behind it.
  pub log_read-row :
      (l : Log) (junk h data' rest : List ℕ)
      → ahead l.file ≡ junk ++ (marker_bytes ++ (h ++ (data' ++ rest)))
      → AllBytes junk
      → Clear junk
      → IsRow crc32c h data'
      → (log_read crc32c true l ≡ (row data', behind_row l junk h data'))
        × (ahead (behind_row l junk h data').file ≡ rest)
  log_read-row l junk h data' rest e all clear is_row =
      let l' = behind_header crc32c true l junk in
      let at_data : ahead l'.file ≡ data' ++ rest =
        header-behind crc32c true l junk h (data' ++ rest) e is_row.size in
      (
        read-located crc32c true l junk h (data' ++ rest) e all clear is_row.size
            ∙ header-row l' h data' rest at_data is_row,
        ahead-moved l'.file (length data') data' rest at_data refl,
      )

  abbrev pub Corrupt : Reading × Log → Type 0
  Corrupt x = (x.0 ≡ wrong) × (x.1.error ≡ ecorrupt)

  data-Corrupt :
      (l : Log) (bs : List ℕ)
      → (crc32c bs == u32 (drop 24 l.hdr)) ≡ false
      → Corrupt (data_read crc32c true l (some bs))
  unfolding data_read
  data-Corrupt l bs n = rw n (refl, refl)

  header-Corrupt :
      (l : Log) (h data' rest : List ℕ)
      → ahead l.file ≡ data' ++ rest
      → u32 (drop 20 h) ≡ length data'
      → 0 < length data'
      → (crc32c (drop 4 h) == u32 h && crc32c data' == u32 (drop 24 h)) ≡ false
      → Corrupt (row_header_read crc32c true l (some h))
  unfolding row_header_read
  header-Corrupt l h data' rest e fits some_data bad =
      elim (Bool-cases (crc32c (drop 4 h) == u32 h)) [
        | inl y ↦
            let l' : Log = record l { offset = l.file.at; hdr = h } in
            let sum : (crc32c data' == u32 (drop 24 h)) ≡ false =
              subst (λ b. (b && crc32c data' == u32 (drop 24 h)) ≡ false) y bad in
            rw y (
              subst (λ x. Corrupt (data_read crc32c true (record l' { file = x.1 }) x.0))
                (sym (data-whole l.file h data' rest e fits some_data))
                (data-Corrupt
                  (record l' { file = record (l.file) { at = l.file.at + length data' } }) data'
                  sum))
        | inr n ↦ rw n (refl, refl)
      ]

  -- Where memory is found, and no marker begins in the bytes before it, a record with at least
  -- one byte of data whose length is right, but not both of its checksums, gives -1 and the error
  -- of a corrupt file.
  pub log_read-Corrupt :
      (l : Log) (junk h data' rest : List ℕ)
      → ahead l.file ≡ junk ++ (marker_bytes ++ (h ++ (data' ++ rest)))
      → AllBytes junk
      → Clear junk
      → length h ≡ 28
      → u32 (drop 20 h) ≡ length data'
      → 0 < length data'
      → (crc32c (drop 4 h) == u32 h && crc32c data' == u32 (drop 24 h)) ≡ false
      → Corrupt (log_read crc32c true l)
  log_read-Corrupt l junk h data' rest e all clear size fits some_data bad =
      let l' = behind_header crc32c true l junk in
      let at_data : ahead l'.file ≡ data' ++ rest =
        header-behind crc32c true l junk h (data' ++ rest) e size in
      subst Corrupt (sym (read-located crc32c true l junk h (data' ++ rest) e all clear size))
        (header-Corrupt l' h data' rest at_data fits some_data bad)
