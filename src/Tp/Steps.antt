-- ===== src/Tp/Steps.antt =====
-- The two ways in which the functions of include/tp.h write: a request that begins behind the last
-- one, and bytes that are added to the request under way.
use bee_c.Base.{ℕ, ◌+◌, ◌^◌, ◌≤◌, ◌<◌, ◌≡◌, refl, sym, ap, ◌∙◌, subst, inl, inr, true, Option, some}
use bee_c.Base.{
  List, ◌++◌, append_assoc, length, length-append, take, length-take, take_add, drop, length-drop,
  leb, arith,
}
use bee_c.Base.Memory.{write_at, length-write_at, take-write_at}
use bee_c.Msgpuck.{Msgpuck, Measured}
use bee_c.Tp.{
  Tp, done, tp_ensure, store, int_size, five, header_start, sizeof_header, tpi_encode_header,
  started, begin_request, extended, extend,
}
use bee_c.Tp.Draft.{
  Draft, with_more, fresh, Honest, message, packed, Represents, Stepped, length-five, store-some,
  tp_add-Counted, tp_ensure-Ensured, int_size_small,
}

module _ (mp : Msgpuck) (ms : Measured mp) where
  length-message :
      (d : Draft) → length (message mp d) ≡ length (header_start mp d.code) + 5 + length d.body
  length-message d = omega (
    arith,
    length-append (header_start mp d.code) (five mp d.id ++ d.body),
    length-append (five mp d.id) d.body,
    length-five mp ms d.id,
  )

  message-with_more :
      (d : Draft) (bs : List ℕ) → message mp d ++ bs ≡ message mp (with_more mp d bs)
  message-with_more d bs = simp append_assoc refl

  -- The bytes are stored at the position, which has room.
  pub extended-Stepped :
      (p : Tp) (d : Draft) (new : List ℕ) (k : ℕ) (bs : List ℕ)
      → Represents mp p d
      → take p.pos new ≡ take p.pos p.buf
      → p.pos + length bs ≤ length new
      → Stepped mp p
          (with_more mp d bs)
          (extended mp (length bs) bs (some k, record p { buf = new }))
  unfolding extended
  extended-Stepped p d new k bs v same room =
      let q : Tp = record p { buf = write_at new p.pos bs } in
      let stored : store (record p { buf = new }) p.pos bs ≡ some q =
        store-some mp (record p { buf = new }) p.pos bs room in
      let total : length q.buf ≡ length new = length-write_at new p.pos bs room in
      let written =
        take-write_at new p.pos bs (p.pos + length bs) (omega arith) refl
        ∙ ap (λ l. l ++ bs) (same ∙ v.contents)
        ∙ append_assoc d.before (packed mp (message mp d)) bs
        ∙ ap (λ l. d.before ++ l)
            (append_assoc (five mp (length (message mp d))) (message mp d) bs
              ∙ ap (λ l. five mp (length (message mp d)) ++ l) (message-with_more d bs)) in
      let (last, added, contents, size) =
        tp_add-Counted mp ms q d.before (five mp (length (message mp d)))
          (message mp (with_more mp d bs)) (length bs) v.size written (length-five mp ms _)
          (subst (λ n. p.pos + length bs ≤ n) (sym total) room) in
      let run : extended mp (length bs) bs (some k, record p { buf = new })
          ≡ done p.pos (record q { buf = last; pos = p.pos + length bs }) =
        simp (extended, stored, added) refl in
      subst (Stepped mp p (with_more mp d bs)) (sym run) (
        record { contents = contents; size = v.size; sync = v.sync; within = omega arith },
        refl,
        refl,
      )

  -- What is added to a request becomes the end of its body, and the length of the request is
  -- brought up to date.
  pub extend-Stepped :
      (p : Tp) (d : Draft) (sz : ℕ) (bs : List ℕ)
      → Represents mp p d
      → Honest p.reserve
      → length bs ≡ sz
      → sz < 2 ^ 31
      → Stepped mp p (with_more mp d bs) (extend mp p sz bs)
  unfolding extend extended
  extend-Stepped p d sz bs v h e small =
      let size : int_size sz ≡ length bs = int_size_small mp sz small ∙ sym e in
      elim (tp_ensure-Ensured mp p (length bs) h v.within) [
        | inl full ↦
            subst (λ n. Stepped mp p (with_more mp d bs) (extended mp n bs (tp_ensure p n)))
              (sym size)
              (subst (λ x. Stepped mp p (with_more mp d bs) (extended mp (length bs) bs x))
                (sym full) refl)
        | inr (k, new, got, same, room) ↦
            subst (λ n. Stepped mp p (with_more mp d bs) (extended mp n bs (tp_ensure p n)))
              (sym size)
              (subst (λ x. Stepped mp p (with_more mp d bs) (extended mp (length bs) bs x))
                (sym got) (extended-Stepped p d new k bs v same room))
      ]

  pub length-header_start :
      (code : ℕ) → sizeof_header mp code ≡ 5 + length (header_start mp code) + 5
  unfolding sizeof_header
  length-header_start code = simp (length-append, ms.length-map, ms.length-uint) (omega arith)

  -- The buffer with a header and a body behind the place of the length.
  abbrev pub headed : Tp → ℕ → List ℕ → Tp
  headed p code new = record p {
    buf = write_at new (p.pos + 5) (header_start mp code ++ five mp 0);
    size = some p.pos;
    sync = some (p.pos + 5 + length (header_start mp code));
  }

  pub tpi_encode_header-some :
      (p : Tp) (new : List ℕ) (code : ℕ)
      → p.pos + sizeof_header mp code ≤ length new
      → tpi_encode_header mp (record p { buf = new }) code
        ≡ some (p.pos + 5 + length (header_start mp code) + 5, headed p code new)
  unfolding tpi_encode_header
  tpi_encode_header-some p new code room =
      let fits : leb (p.pos + 5 + length (header_start mp code ++ five mp 0)) (length new) ≡ true =
        ground (
          arith,
          length-append (header_start mp code) (five mp 0),
          length-five mp ms 0,
          length-header_start code,
        ) in
      simp (tpi_encode_header, fits) refl

  -- The header and the body behind what was written before.
  headed-contents :
      (p : Tp) (new : List ℕ) (code : ℕ) (body : List ℕ)
      → p.pos ≤ length p.buf
      → take p.pos new ≡ take p.pos p.buf
      → p.pos + (sizeof_header mp code + length body) ≤ length new
      → let h = p.pos + 5 + length (header_start mp code) + 5 in
        take
          (p.pos + (sizeof_header mp code + length body))
          (write_at (headed p code new).buf h body)
        ≡ take p.pos p.buf ++ (take 5 (drop p.pos new) ++ message mp (fresh mp p code body))
  headed-contents p new code body within same room =
      let hd = header_start mp code ++ five mp 0 in
      let h = p.pos + 5 + length (header_start mp code) + 5 in
      let size = length-header_start code in
      let hd_size : length hd ≡ length (header_start mp code) + 5 =
        omega (arith, length-append (header_start mp code) (five mp 0), length-five mp ms 0) in
      let kept : length (headed p code new).buf ≡ length new =
        length-write_at new (p.pos + 5) hd (omega arith) in
      take-write_at (headed p code new).buf h body (p.pos + (sizeof_header mp code + length body))
        (omega arith) (omega arith)
      ∙ ap (λ l. l ++ body)
          (take-write_at new (p.pos + 5) hd h (omega arith) (omega arith)
            ∙ ap (λ l. l ++ hd)
                (take_add p.pos 5 (p.pos + 5) new refl
                  ∙ ap (λ l. l ++ take 5 (drop p.pos new)) same))
      ∙ simp append_assoc refl

  pub started-Stepped :
      (p : Tp) (new : List ℕ) (k code : ℕ) (body : List ℕ)
      → p.pos ≤ length p.buf
      → take p.pos new ≡ take p.pos p.buf
      → p.pos + (sizeof_header mp code + length body) ≤ length new
      → Stepped mp p (fresh mp p code body) (
          started mp code
            (sizeof_header mp code + length body)
            body
            (some k, record p { buf = new }))
  unfolding started
  started-Stepped p new k code body within same room =
      let total = sizeof_header mp code + length body in
      let h = p.pos + 5 + length (header_start mp code) + 5 in
      let size = length-header_start code in
      let q0 = headed p code new in
      let q : Tp = record q0 { buf = write_at q0.buf h body } in
      let before_size : length (take p.pos p.buf) ≡ p.pos =
        omega (arith, length-take p.pos p.buf) in
      let hd_size : length (header_start mp code ++ five mp 0) ≡ length (header_start mp code) + 5 =
        omega (arith, length-append (header_start mp code) (five mp 0), length-five mp ms 0) in
      let kept : length q0.buf ≡ length new =
        length-write_at new (p.pos + 5) (header_start mp code ++ five mp 0) (omega arith) in
      let stored : store q0 h body ≡ some q = store-some mp q0 h body (omega arith) in
      let kept' : length q.buf ≡ length new = length-write_at q0.buf h body (omega arith) ∙ kept in
      let old : length (take 5 (drop p.pos new)) ≡ 5 =
        omega (arith, length-take 5 (drop p.pos new), length-drop p.pos new) in
      let (last, added, contents, length_last) =
        tp_add-Counted mp ms q (take p.pos p.buf) (take 5 (drop p.pos new))
          (message mp (fresh mp p code body)) total (ap some (sym before_size))
          (headed-contents p new code body within same room) old
          (subst (λ n. p.pos + total ≤ n) (sym kept') room) in
      let run : started mp code total body (some k, record p { buf = new })
          ≡ done p.pos (record q { buf = last; pos = p.pos + total }) =
        simp (started, tpi_encode_header-some p new code (omega arith), stored, added) refl in
      subst (Stepped mp p (fresh mp p code body)) (sym run) (
        record {
          contents = contents;
          size = ap some (sym before_size);
          sync = ap (λ n. some (n + 5 + length (header_start mp code))) (sym before_size);
          within = subst (λ n. p.pos + total ≤ n) (sym (length_last ∙ kept')) room;
        },
        refl,
        refl,
      )

  -- A request begins behind all that the buffer holds, with its length and the id 0.
  pub begin_request-Stepped :
      (p : Tp) (code sz : ℕ) (body : List ℕ)
      → p.pos ≤ length p.buf
      → Honest p.reserve
      → length body ≡ sz
      → sz + sizeof_header mp code < 2 ^ 31
      → Stepped mp p (fresh mp p code body) (begin_request mp p code sz body)
  unfolding begin_request started
  begin_request-Stepped p code sz body within h e small =
      let total = sizeof_header mp code + length body in
      let size : int_size (sz + sizeof_header mp code) ≡ total =
        int_size_small mp (sz + sizeof_header mp code) small ∙ omega arith in
      let goal = λ (n : ℕ) (x : Option ℕ × Tp).
        Stepped mp p (fresh mp p code body) (started mp code n body x) in
      elim (tp_ensure-Ensured mp p total h within) [
        | inl full ↦
            subst (λ n. goal n (tp_ensure p n)) (sym size) (subst (goal total) (sym full) refl)
        | inr (k, new, got, same, room) ↦
            subst (λ n. goal n (tp_ensure p n)) (sym size)
              (subst (goal total) (sym got) (started-Stepped p new k code body within same room))
      ]
