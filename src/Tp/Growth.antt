-- ===== src/Tp/Growth.antt =====
-- `tp_realloc` of include/tp.h, the reserve function that it offers.
use bee_c.Base.{
  ℕ, ◌+◌, ◌-◌, ◌*◌, ◌%◌, ◌^◌, ◌≤◌, ◌<◌, ◌≡◌, refl, sym, ap, ◌∙◌, Bool-cases, inl, inr, false, ◌||◌,
  Option, some, List, ◌++◌, length, length-append, take, take-take, ltb, leb, arith, if◌then◌else◌,
}
use bee_c.Msgpuck.{Msgpuck, Measured}
use bee_c.Tp.{
  Tp, fault, tp_realloc, tp_ensure, tp_unused, store, int_size, extended, extend, tp_encode_str,
}
use bee_c.Tp.Draft.{int_size_small}

-- `realloc` of the C library: a block of the size wanted, with the bytes of the old one.
pub record Reallocates (r : List ℕ → ℕ → Option (List ℕ)) : Type 0 where
  pub sized : (old : List ℕ) (n : ℕ) (new : List ℕ) → r old n ≡ some new → length new ≡ n
  pub kept :
      (old : List ℕ) (n : ℕ) (new : List ℕ)
      → r old n ≡ some new
      → length old ≤ n
      → take (length old) new ≡ old

module _ (r : List ℕ → ℕ → Option (List ℕ)) (law : Reallocates r) where
  -- What `tp_realloc` keeps of the buffer, and whether the bytes wanted fit behind the position.
  abbrev pub Room : List ℕ → ℕ → ℕ → List ℕ → Type 0
  Room buf pos required new =
      (take pos new ≡ take pos buf)
      × (leb (pos + required) (length new)
          ≡ (ltb (length buf * 2) required || leb (pos + required) (length buf * 2)))

  -- Where the old size and the bytes wanted are below 2 ^ 63 together and realloc succeeds, the
  -- reallocation of include/tp.h keeps all that was written, but the new buffer has room for the
  -- bytes wanted exactly where they are more than twice the old size, or where the double size
  -- holds them together with what was written.
  pub tp_realloc-Room :
      (buf : List ℕ) (pos required : ℕ) (new : List ℕ)
      → pos ≤ length buf
      → length buf + required < 2 ^ 63
      → tp_realloc r buf pos required ≡ some new
      → Room buf pos required new
  unfolding tp_realloc
  tp_realloc-Room buf pos required new within small got =
      let whole : (length buf * 2) % 2 ^ 64 ≡ length buf * 2 = omega arith in
      let sum : (length buf + required) % 2 ^ 64 ≡ length buf + required = omega arith in
      let got' : r buf
            (if ltb (length buf * 2) required then length buf + required else length buf * 2)
          ≡ some new =
        simp (whole, sum) at got in
      elim (Bool-cases (ltb (length buf * 2) required)) [
        | inl y ↦
            let g : r buf (length buf + required) ≡ some new = simp y at got' in
            let size = law.sized buf _ new g in
            (
              sym (take-take pos (length buf) new within)
                  ∙ ap (take pos) (law.kept buf _ new g (omega arith)),
              rw y (ground arith),
            )
        | inr n ↦
            let g : r buf (length buf * 2) ≡ some new = simp n at got' in
            let size = law.sized buf _ new g in
            (
              sym (take-take pos (length buf) new within)
                  ∙ ap (take pos) (law.kept buf _ new g (omega arith)),
              rw (n, size) refl,
            )
      ]

  -- So over a buffer of fewer than 2 ^ 30 bytes whose double size holds a string but not what was
  -- written besides, where the reserve function is that reallocation and memory is found, adding
  -- the string writes past the end of the new buffer.
  pub tp_encode_str-Overrun :
      (mp : Msgpuck)
      → Measured mp
      → (p : Tp) (s new : List ℕ)
      → let sz = mp.sizeof_str (length s) in
        p.reserve ≡ some (tp_realloc r)
        → p.pos ≤ length p.buf
        → length p.buf < 2 ^ 30
        → sz ≤ length p.buf * 2
        → length p.buf * 2 < p.pos + sz
        → tp_realloc r p.buf p.pos sz ≡ some new
        → tp_encode_str mp p s ≡ fault
  unfolding tp_encode_str extend extended tp_ensure tp_unused store
  tp_encode_str-Overrun mp ms p s new e within small doubled short got =
      let sz = mp.sizeof_str (length s) in
      let text = mp.encode_strl (length s) ++ s in
      let (kept, room) = tp_realloc-Room p.buf p.pos sz new within (omega arith) got in
      let size : int_size sz ≡ sz = int_size_small mp sz (omega arith) in
      let text_size : length text ≡ sz =
        length-append (mp.encode_strl (length s)) s ∙ ms.length-strl (length s) in
      let no_room : leb sz (length p.buf - p.pos) ≡ false = ground arith in
      let below : ltb (length p.buf * 2) sz ≡ false = ground arith in
      let beyond : leb (p.pos + sz) (length p.buf * 2) ≡ false = ground arith in
      let full : leb (p.pos + sz) (length new) ≡ false = simp (below, beyond) at room in
      let full' : leb (p.pos + length text) (length new) ≡ false = rw text_size full in
      let grown : tp_ensure p sz ≡ (some (length new), record p { buf = new }) =
        simp (tp_ensure, no_room, e, got) refl in
      let last : extended mp sz text (some (length new), record p { buf = new }) ≡ fault =
        simp (extended, full') refl in
      ap (λ n. extended mp n text (tp_ensure p n)) size ∙ ap (extended mp sz text) grown ∙ last
