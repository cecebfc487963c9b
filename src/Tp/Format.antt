-- ===== src/Tp/Format.antt =====
-- `tp_format` of include/tp.h, over msgpuck's `mp_vformat`, whose code is a submodule.
use bee_c.Base.{
  ℕ, ◌+◌, ◌-◌, ◌≤◌, ◌≡◌, refl, sym, ap, ◌∙◌, subst, true, false, Option, none, some, List, length,
  ltb, leb, if◌then◌else◌, arith,
}
use bee_c.Base.Memory.{write_at}
use bee_c.Msgpuck.{Msgpuck, Measured}
use bee_c.Tp.{Tp, Out, fault, store, tp_add, tp_ensure, tp_unused, extended}
use bee_c.Tp.Draft.{Draft, Represents, Stepped, with_more}
use bee_c.Tp.Steps.{extended-Stepped}
use bee_c.Tp.Padded.{behind}

-- A format with its arguments: the size that `mp_vformat` gives, and what it writes for a limit.
pub record Format : Type 0 where
  pub total : ℕ
  pub written : ℕ → List ℕ

-- No byte past the limit, and all bytes of an encoding that the limit holds.
pub record Formats (f : Format) (bytes : List ℕ) : Type 0 where
  pub sized : f.total ≡ length bytes
  pub limited : (n : ℕ) → length (f.written n) ≤ n
  pub complete : (n : ℕ) → length bytes ≤ n → f.written n ≡ bytes

module _ (mp : Msgpuck) where
  -- Once the first `mp_vformat` was made; the second one, in a buffer that grew, has its limit too.
  unfoldable pub formatted : ℕ → Format → Option ℕ × Tp → Out
  unfolding extended
  formatted unused f x = extended mp f.total (f.written unused) x

  unfoldable pub tp_format : Tp → Format → Out
  unfolding formatted store tp_add tp_ensure tp_unused
  tp_format p f =
      let unused = tp_unused p in
      elim (store p p.pos (f.written unused)) [
        | none ↦ fault
        | some q ↦
            if ltb unused f.total
            then formatted unused f (tp_ensure q f.total)
            else tp_add mp q f.total
      ]

module _ (mp : Msgpuck) (ms : Measured mp) where
  -- A format that fits in the free space is added to the body of the request like any value.
  pub tp_format-Stepped :
      (p : Tp) (d : Draft) (f : Format) (bytes : List ℕ)
      → Represents mp p d
      → Formats f bytes
      → length bytes ≤ tp_unused p
      → Stepped mp p (with_more mp d bytes) (tp_format mp p f)
  unfolding tp_format extended tp_unused store
  tp_format-Stepped p d f bytes v law fits =
      let unused = length p.buf - p.pos in
      let within = v.within in
      let all : f.written unused ≡ bytes = law.complete unused fits in
      let size = law.sized in
      let enough : ltb unused f.total ≡ false = ground arith in
      let q : Tp = record p { buf = write_at p.buf p.pos bytes } in
      let inside : leb (p.pos + length bytes) (length p.buf) ≡ true = ground arith in
      let left : extended mp (length bytes) bytes (some 0, p) ≡ tp_add mp q (length bytes) =
        simp (extended, inside) refl in
      let right : tp_format mp p f ≡ tp_add mp q f.total =
        simp (tp_format, all, inside, enough) refl in
      subst (Stepped mp p (with_more mp d bytes)) (left ∙ sym (right ∙ ap (tp_add mp q) size))
        (extended-Stepped mp ms p d p.buf 0 bytes v refl (omega arith))

  -- What the first write of a format leaves.
  abbrev pub first_written : Tp → Format → Tp
  first_written p f = record p { buf = write_at p.buf p.pos (f.written (tp_unused p)) }

  -- The bytes behind what fitted at first, in the buffer that then has room for the whole format.
  abbrev pub leftover : Tp → Format → List ℕ → List ℕ
  leftover p f bytes =
      let part = f.written (tp_unused p) in
      behind (tp_ensure (first_written p f) (length bytes)).1.buf p.pos part
        (length bytes - length part)
