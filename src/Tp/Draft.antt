-- ===== src/Tp/Draft.antt =====
-- What a `struct tp` of include/tp.h stands for: the bytes of the finished requests, and the request
-- under way.
use bee_c.Base.{
  ℕ, suc, ◌+◌, ◌-◌, ◌%◌, ◌^◌, ◌≤◌, ◌<◌, ◌≡◌, refl, sym, ap, ◌∙◌, ◌⊎◌, inl, inr, Bool-cases, true,
  false, Option, none, some,
}
use bee_c.Base.{List, ◌∷◌, ◌++◌, length, length-append, take, length-take, ltb, leb, arith}
use bee_c.Base.Memory.{write_at, length-write_at, take-write_at_inside, write_at_over}
use bee_c.Msgpuck.{Msgpuck, Measured}
use bee_c.Tp.{
  Tp, Out, Reserve, done, null, fault, tp_unused, tp_ensure, store, int_size, five, tp_add,
  header_start,
}

pub record Draft : Type 0 where
  pub before : List ℕ
  pub code : ℕ
  pub id : ℕ
  pub body : List ℕ

-- A reserve function that keeps what was written, and finds room for what is wanted.
abbrev pub Honest : Option Reserve → Type 0
Honest none = Unit {0}
Honest (some f) =
    (buf : List ℕ) (pos n : ℕ) (new : List ℕ)
    → pos ≤ length buf
    → f buf pos n ≡ some new
    → (take pos new ≡ take pos buf) × (pos + n ≤ length new)

module _ (mp : Msgpuck) where
  abbrev pub message : Draft → List ℕ
  message d = header_start mp d.code ++ (five mp d.id ++ d.body)

  abbrev pub packed : List ℕ → List ℕ
  packed m = five mp (length m) ++ m

  -- The request with more of a body.
  abbrev pub with_more : Draft → List ℕ → Draft
  with_more d bs = record d { body = d.body ++ bs }

  -- The request that begins behind what the buffer holds, with the id 0.
  abbrev pub fresh : Tp → ℕ → List ℕ → Draft
  fresh p code body = record { before = take p.pos p.buf; code = code; id = 0; body = body }

  pub record Represents (p : Tp) (d : Draft) : Type 0 where
    pub contents : take p.pos p.buf ≡ d.before ++ packed (message d)
    pub size : p.size ≡ some (length d.before)
    pub sync : p.sync ≡ some (length d.before + 5 + length (header_start mp d.code))
    pub within : p.pos ≤ length p.buf

  -- A call gives NULL and changes nothing, or a pointer to where the bytes begin that it wrote.
  abbrev pub Stepped : Tp → Draft → Out → Type 0
  Stepped p d (done o q) = Represents q d × (o ≡ p.pos) × (q.reserve ≡ p.reserve)
  Stepped p d (null q) = q ≡ p
  Stepped p d fault = ⊥

  pub length-five : Measured mp → (n : ℕ) → length (five mp n) ≡ 5
  length-five m n = ap suc (m.length-u32 (n % 2 ^ 32))

  -- A write within the buffer.
  pub store-some :
      (p : Tp) (off : ℕ) (bs : List ℕ)
      → off + length bs ≤ length p.buf
      → store p off bs ≡ some (record p { buf = write_at p.buf off bs })
  unfolding store
  store-some p off bs h =
      let y : leb (off + length bs) (length p.buf) ≡ true = ground arith in rw y refl

  -- `tp_add` behind a request whose length is out of date.
  pub tp_add-Counted :
      Measured mp
      → (q : Tp) (before old m : List ℕ) (n : ℕ) → q.size ≡ some (length before)
      → take (q.pos + n) q.buf ≡ before ++ (old ++ m)
      → length old ≡ 5
      → q.pos + n ≤ length q.buf
      → (new : List ℕ) × (tp_add mp q n ≡ done q.pos (record q { buf = new; pos = q.pos + n }))
        × (take (q.pos + n) new ≡ before ++ packed m)
        × (length new ≡ length q.buf)
  unfolding tp_add
  tp_add-Counted ms q before old m n s c five_old room =
      let o = length before in
      let stop = q.pos + n in
      let total : stop ≡ o + (5 + length m) = omega (
        arith,
        ap length c,
        length-take stop q.buf,
        length-append before (old ++ m),
        length-append old m,
      ) in
      let bytes = five mp (stop + 2 ^ 32 - (o + 5)) in
      let five_new : length bytes ≡ 5 = length-five ms _ in
      let counted : (stop + 2 ^ 32 - (o + 5)) % 2 ^ 32 ≡ length m % 2 ^ 32 = omega arith in
      let counted' : bytes ≡ five mp (length m) = ap (λ k. 0xce ∷ mp.store_u32 k) counted in
      let fits : leb (o + length bytes) (length q.buf) ≡ true = ground arith in
      let inside : ltb (length q.buf) stop ≡ false = ground arith in
      (
        write_at q.buf o bytes,
        simp (tp_add, s, fits, inside) refl,
        take-write_at_inside q.buf o bytes stop (omega arith) room
            ∙ ap (λ l. write_at l o bytes) c
            ∙ write_at_over before old m bytes (five_new ∙ sym five_old)
            ∙ ap (λ b. before ++ (b ++ m)) counted',
        length-write_at q.buf o bytes (omega arith),
      )

  -- `tp_ensure` finds no room and changes nothing, or keeps what was written and has room.
  abbrev pub Ensured : Tp → ℕ → Type 0
  Ensured p n =
      (tp_ensure p n ≡ (none, p))
      ⊎ ((k : ℕ) × (new : List ℕ) × (tp_ensure p n ≡ (some k, record p { buf = new }))
          × (take p.pos new ≡ take p.pos p.buf)
          × (p.pos + n ≤ length new))

  grant-Ensured :
      (p : Tp) (n : ℕ) (f : Reserve)
      → p.reserve ≡ some f
      → Honest (some f)
      → p.pos ≤ length p.buf
      → leb n (length p.buf - p.pos) ≡ false
      → (g : Option (List ℕ)) → f p.buf p.pos n ≡ g
      → Ensured p n
  unfolding tp_ensure tp_unused
  grant-Ensured p n f e h w short none g = inl (simp (tp_ensure, short, e, g) refl)
  grant-Ensured p n f e h w short (some new) g =
      let (same, room) = h p.buf p.pos n new w g in
      inr (length new, new, simp (tp_ensure, short, e, g) refl, same, room)

  reserve-Ensured :
      (p : Tp) (n : ℕ) (r : Option Reserve)
      → p.reserve ≡ r
      → Honest r
      → p.pos ≤ length p.buf
      → leb n (length p.buf - p.pos) ≡ false
      → Ensured p n
  unfolding tp_ensure tp_unused
  reserve-Ensured p n none e h w short = inl (simp (tp_ensure, short, e) refl)
  reserve-Ensured p n (some f) e h w short = grant-Ensured p n f e h w short (f p.buf p.pos n) refl

  pub tp_ensure-Ensured : (p : Tp) (n : ℕ) → Honest p.reserve → p.pos ≤ length p.buf → Ensured p n
  unfolding tp_ensure tp_unused
  tp_ensure-Ensured p n h w = elim (Bool-cases (leb n (length p.buf - p.pos))) [
    | inl y ↦ inr (0, p.buf, simp (tp_ensure, y) refl, refl, ground arith)
    | inr short ↦ reserve-Ensured p n p.reserve refl h w short
  ]

  pub int_size_small : (n : ℕ) → n < 2 ^ 31 → int_size n ≡ n
  int_size_small n h = ground arith
