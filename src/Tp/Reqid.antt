-- ===== src/Tp/Reqid.antt =====
-- `tp_reqid` of include/tp.h.
use bee_c.Base.{ℕ, ◌+◌, ◌≡◌, refl, sym, ap, ◌∙◌, some}
use bee_c.Base.{List, ◌++◌, append_assoc, length, length-append, length-take, leb, true, arith}
use bee_c.Base.Memory.{write_at, length-write_at, take-write_at_inside, write_at_over}
use bee_c.Msgpuck.{Msgpuck, Measured}
use bee_c.Tp.{Tp, tp_reqid, five, header_start}
use bee_c.Tp.Draft.{Draft, message, Represents, length-five}

module _ (mp : Msgpuck) (ms : Measured mp) where
  -- The id stands behind the start of the header.
  at_id :
      (before size start id body : List ℕ)
      → before ++ (size ++ (start ++ (id ++ body))) ≡ (before ++ (size ++ start)) ++ (id ++ body)
  at_id before size start id body = simp append_assoc refl

  length-message_id :
      (d : Draft) (n : ℕ) → length (message mp (record d { id = n })) ≡ length (message mp d)
  length-message_id d n = omega (
    arith,
    length-append (header_start mp d.code) (five mp d.id ++ d.body),
    length-append (header_start mp d.code) (five mp n ++ d.body),
    length-append (five mp d.id) d.body,
    length-append (five mp n) d.body,
    length-five mp ms d.id,
    length-five mp ms n,
  )

  -- The id of the request under way is replaced, and all else stays.
  pub tp_reqid-Represents :
      (p : Tp) (d : Draft) (n : ℕ)
      → Represents mp p d
      → (q : Tp) × (tp_reqid mp p n ≡ some q)
        × Represents mp q (record d { id = n })
        × (q.pos ≡ p.pos)
        × (q.reserve ≡ p.reserve)
  unfolding tp_reqid
  tp_reqid-Represents p d n v =
      let start = header_start mp d.code in
      let size = five mp (length (message mp d)) in
      let pre = d.before ++ (size ++ start) in
      let h = length d.before + 5 + length start in
      let place : length pre ≡ h = omega (
        arith,
        length-append d.before (size ++ start),
        length-append size start,
        length-five mp ms (length (message mp d)),
      ) in
      let whole = v.contents ∙ at_id d.before size start (five mp d.id) d.body in
      let total : p.pos ≡ h + (5 + length d.body) = omega (
        arith,
        ap length whole,
        length-take p.pos p.buf,
        length-append pre (five mp d.id ++ d.body),
        length-append (five mp d.id) d.body,
        length-five mp ms d.id,
        v.within,
      ) in
      let five_new = length-five mp ms n in
      let fits : leb (h + length (five mp n)) (length p.buf) ≡ true = ground arith in
      let q : Tp = record p { buf = write_at p.buf h (five mp n) } in
      let within = v.within in
      let kept : length q.buf ≡ length p.buf = length-write_at p.buf h (five mp n) (omega arith) in
      (
        q,
        simp (tp_reqid, v.sync, fits) refl,
        record {
          contents =
              take-write_at_inside p.buf h (five mp n) p.pos (omega arith) within
              ∙ ap (λ l. write_at l h (five mp n)) whole
              ∙ ap (λ k. write_at (pre ++ (five mp d.id ++ d.body)) k (five mp n)) (sym place)
              ∙ write_at_over pre (five mp d.id) d.body (five mp n)
                  (five_new ∙ sym (length-five mp ms d.id))
              ∙ sym (at_id d.before size start (five mp n) d.body)
              ∙ ap (λ k. d.before ++ (five mp k ++ message mp (record d { id = n })))
                  (sym (length-message_id d n));
          size = v.size;
          sync = v.sync;
          within = omega arith;
        },
        refl,
        refl,
      )
