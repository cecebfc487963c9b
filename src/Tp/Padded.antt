-- ===== src/Tp/Padded.antt =====
-- Calls of include/tp.h that move the position further than they write.
use bee_c.Base.{
  ℕ, ◌+◌, ◌≤◌, ◌≡◌, refl, sym, ap, ◌∙◌, subst, none, some, List, ◌++◌, append_assoc, length,
  length-append, take, length-take, drop, length-drop, drop-drop, take-append-drop, arith,
}
use bee_c.Base.Memory.{write_at, length-write_at, drop-write_at_behind}
use bee_c.Msgpuck.{Msgpuck, Measured}
use bee_c.Tp.{Tp, store, started, extended, five, tp_add, header_start, sizeof_header, fault}
use bee_c.Tp.Draft.{Draft, Represents, Stepped, with_more, fresh, store-some, length-five}
use bee_c.Tp.Steps.{
  extended-Stepped, started-Stepped, tpi_encode_header-some, length-header_start, headed,
}

-- The k bytes of memory behind a write.
abbrev pub behind : List ℕ → ℕ → List ℕ → ℕ → List ℕ
behind mem off bs k = take k (drop (off + length bs) mem)

pub length-behind :
    (mem : List ℕ) (off : ℕ) (bs : List ℕ) (k : ℕ)
    → off + (length bs + k) ≤ length mem
    → length (behind mem off bs k) ≡ k
length-behind mem off bs k h =
    omega (arith, length-take k (drop (off + length bs) mem), length-drop (off + length bs) mem)

-- A write of bytes and of those that stand behind them changes no more than the bytes.
write_at-behind :
    (mem : List ℕ) (off : ℕ) (bs : List ℕ) (k : ℕ)
    → off + (length bs + k) ≤ length mem
    → write_at mem off (bs ++ behind mem off bs k) ≡ write_at mem off bs
unfolding write_at
write_at-behind mem off bs k h =
    let junk = behind mem off bs k in
    let n : off + length bs + k ≡ off + length (bs ++ junk) =
      omega (arith, length-append bs junk, length-behind mem off bs k h) in
    ap (λ l. take off mem ++ l)
      (append_assoc bs junk (drop (off + length (bs ++ junk)) mem)
        ∙ ap (λ l. bs ++ (junk ++ l))
            (ap (λ j. drop j mem) (sym n)
              ∙ sym (drop-drop (off + length bs) k (off + length bs + k) mem refl))
        ∙ ap (λ l. bs ++ l) (take-append-drop k (drop (off + length bs) mem)))

module _ (mp : Msgpuck) (ms : Measured mp) where
  store-behind :
      (p : Tp) (off : ℕ) (bs : List ℕ) (k : ℕ)
      → off + (length bs + k) ≤ length p.buf
      → store p off bs ≡ store p off (bs ++ behind p.buf off bs k)
  store-behind p off bs k h =
      store-some mp p off bs (omega arith)
      ∙ ap (λ l. some (record p { buf = l })) (sym (write_at-behind p.buf off bs k h))
      ∙ sym (
          store-some mp p off (bs ++ behind p.buf off bs k) (
            omega
              (arith, length-append bs (behind p.buf off bs k), length-behind p.buf off bs k h)))

  -- The bytes behind the ones that are added join the request.
  pub extended-Padded :
      (p : Tp) (d : Draft) (new : List ℕ) (n : ℕ) (bs : List ℕ) (k : ℕ)
      → Represents mp p d
      → take p.pos new ≡ take p.pos p.buf
      → p.pos + (length bs + k) ≤ length new
      → Stepped mp p
          (with_more mp d (bs ++ behind new p.pos bs k))
          (extended mp (length bs + k) bs (some n, record p { buf = new }))
  unfolding extended
  extended-Padded p d new n bs k v same room =
      let junk = behind new p.pos bs k in
      let q : Tp = record p { buf = new } in
      let size : length (bs ++ junk) ≡ length bs + k =
        omega (arith, length-append bs junk, length-behind new p.pos bs k room) in
      let whole : extended mp (length (bs ++ junk)) (bs ++ junk) (some n, q)
          ≡ extended mp (length bs + k) bs (some n, q) =
        ap (λ t. extended mp t (bs ++ junk) (some n, q)) size
        ∙ ap (λ o. elim o [ none ↦ fault | some r ↦ tp_add mp r (length bs + k) ])
            (sym (store-behind q p.pos bs k room)) in
      subst (Stepped mp p (with_more mp d (bs ++ junk))) whole
        (extended-Stepped mp ms p d new n (bs ++ junk) v same (omega arith))

  -- The bytes behind the body that is written join the request.
  pub started-Padded :
      (p : Tp) (new : List ℕ) (n code : ℕ) (body : List ℕ) (k : ℕ)
      → p.pos ≤ length p.buf
      → take p.pos new ≡ take p.pos p.buf
      → p.pos + (sizeof_header mp code + (length body + k)) ≤ length new
      → Stepped mp p (fresh mp p code (body ++ behind new (p.pos + sizeof_header mp code) body k)) (
          started mp code
            (sizeof_header mp code + (length body + k))
            body
            (some n, record p { buf = new }))
  unfolding started
  started-Padded p new n code body k within same room =
      let h = p.pos + 5 + length (header_start mp code) + 5 in
      let header = length-header_start mp ms code in
      let q : Tp = headed mp ms p code new in
      let kept : length q.buf ≡ length new =
        length-write_at new (p.pos + 5) (header_start mp code ++ five mp 0)
          (omega (arith, length-append (header_start mp code) (five mp 0), length-five mp ms 0)) in
      let junk = behind q.buf h body k in
      let junk_size = length-behind q.buf h body k (omega arith) in
      let size : length (body ++ junk) ≡ length body + k =
        omega (arith, length-append body junk, junk_size) in
      let total = sizeof_header mp code + (length body + k) in
      let got = tpi_encode_header-some mp ms p new code (omega arith) in
      let first : (b : List ℕ)
          → started mp code total b (some n, record p { buf = new })
            ≡ (elim (store q h b) [ none ↦ fault | some r ↦ tp_add mp r total ]) =
        λ b. simp (started, got) refl in
      let whole : started mp code (sizeof_header mp code + length (body ++ junk)) (body ++ junk)
            (some n, record p { buf = new })
          ≡ started mp code total body (some n, record p { buf = new }) =
        ap
          (λ t.
            started mp code (sizeof_header mp code + t) (body ++ junk)
              (some n, record p { buf = new }))
          size
        ∙ first (body ++ junk)
        ∙ ap (λ o. elim o [ none ↦ fault | some r ↦ tp_add mp r total ])
            (sym (store-behind q h body k (omega arith)))
        ∙ sym (first body) in
      let start : h + length body ≡ p.pos + sizeof_header mp code + length body = omega arith in
      let untouched : junk ≡ behind new (p.pos + sizeof_header mp code) body k = ap (take k) (
        drop-write_at_behind new (header_start mp code ++ five mp 0) (p.pos + 5) (h + length body)
          (omega (arith, length-append (header_start mp code) (five mp 0), length-five mp ms 0))
          (omega (arith, length-append (header_start mp code) (five mp 0), length-five mp ms 0))
        ∙ ap (λ n. drop n new) start) in
      subst
        (λ b.
          Stepped mp p (fresh mp p code (body ++ b))
            (started mp code total body (some n, record p { buf = new })))
        untouched
        (subst (Stepped mp p (fresh mp p code (body ++ junk))) whole
          (started-Stepped mp ms p new n code (body ++ junk) within same (omega arith)))
