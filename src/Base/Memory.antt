-- ===== src/Base/Memory.antt =====
-- A region of memory as the list of its bytes, and `memcpy` into it.
use bee_c.Base.Lists.{length, take, drop, length-append, length-take, length-drop}
use bee_c.Base.Lists.{
  take-append, take-append-drop, take-append_le, drop-append, drop-append_ge, drop-append_le,
  drop-drop,
}
use Prim.Native.Nat.{ℕ, ◌+◌, ◌-◌, ◌≤◌}
use mathlib.Core.Path.{◌≡◌, refl, ap, ap₂, sym, ◌∙◌}
use mathlib.Core.List.{List, ◌++◌, append_assoc}
use native.Mathlib.Omega.{arith}

-- `memcpy(mem + off, src, length src)`: the bytes around the target stay.
unfoldable pub write_at {ℓ} : {A : Type ℓ} → List A → ℕ → List A → List A
write_at mem off src = take off mem ++ (src ++ drop (off + length src) mem)

module _ {ℓ} {A : Type ℓ} (mem : List A) (off : ℕ) (src : List A) where
  pub length-write_at : off + length src ≤ length mem → length (write_at mem off src) ≡ length mem
  unfolding write_at
  length-write_at h = omega (
    arith,
    length-append (take off mem) (src ++ drop (off + length src) mem),
    length-append src (drop (off + length src) mem),
    length-take off mem,
    length-drop (off + length src) mem,
  )

  -- What was written stands behind the bytes that stood before it.
  pub take-write_at :
      (n : ℕ)
      → off ≤ length mem
      → n ≡ off + length src
      → take n (write_at mem off src) ≡ take off mem ++ src
  unfolding write_at
  take-write_at n h e =
      ap (take n) (sym (append_assoc (take off mem) src (drop (off + length src) mem)))
      ∙ take-append (take off mem ++ src) (drop (off + length src) mem) n
          (omega (arith, length-append (take off mem) src, length-take off mem))

  -- The bytes before the target are untouched.
  pub take-write_at_before :
      (n : ℕ) → n ≤ off → off ≤ length mem → take n (write_at mem off src) ≡ take n mem
  unfolding write_at
  take-write_at_before n h k =
      take-append_le n (take off mem) (src ++ drop (off + length src) mem)
        (omega (arith, length-take off mem))
      ∙ take_take_min
    where
      take_take_min : take n (take off mem) ≡ take n mem
      take_take_min = bee_c.Base.Lists.take-take n off mem h

-- A write over `old`, which stands between `pre` and `post`.
pub write_at_over {ℓ} :
    {A : Type ℓ} (pre old post src : List A)
    → length src ≡ length old
    → write_at (pre ++ (old ++ post)) (length pre) src ≡ pre ++ (src ++ post)
unfolding write_at
write_at_over pre old post src e =
    ap₂ (λ a b. a ++ (src ++ b)) (take-append pre (old ++ post) (length pre) refl)
      (sym (
          drop-drop (length pre) (length src) (length pre + length src) (pre ++ (old ++ post)) refl)
        ∙ ap (drop (length src)) (drop-append pre (old ++ post) (length pre) refl)
        ∙ drop-append old post (length src) e)

write_at-append {ℓ} :
    {A : Type ℓ} (mem rest : List A) (off : ℕ) (src : List A)
    → off + length src ≤ length mem
    → write_at (mem ++ rest) off src ≡ write_at mem off src ++ rest
unfolding write_at
write_at-append mem rest off src h =
    ap₂ (λ a b. a ++ (src ++ b)) (take-append_le off mem rest (omega arith))
      (drop-append_le (off + length src) mem rest h)
    ∙ ap (λ x. take off mem ++ x) (sym (append_assoc src (drop (off + length src) mem) rest))
    ∙ sym (append_assoc (take off mem) (src ++ drop (off + length src) mem) rest)

-- A write inside the first n bytes.
pub take-write_at_inside {ℓ} :
    {A : Type ℓ} (mem : List A) (off : ℕ) (src : List A) (n : ℕ)
    → off + length src ≤ n
    → n ≤ length mem
    → take n (write_at mem off src) ≡ write_at (take n mem) off src
take-write_at_inside mem off src n h k =
    ap (λ m. take n (write_at m off src)) (sym (take-append-drop n mem))
    ∙ ap (take n)
        (write_at-append (take n mem) (drop n mem) off src (omega (arith, length-take n mem)))
    ∙ take-append (write_at (take n mem) off src) (drop n mem) n (
        omega (
          arith,
          length-write_at (take n mem) off src (omega (arith, length-take n mem)),
          length-take n mem,
        ))

-- The bytes behind the target are untouched.
pub drop-write_at_behind {ℓ} :
    {A : Type ℓ} (mem src : List A) (off k : ℕ)
    → off + length src ≤ length mem
    → off + length src ≤ k
    → drop k (write_at mem off src) ≡ drop k mem
unfolding write_at
drop-write_at_behind mem src off k h j =
    let front = length-take off mem in
    let first : k - length (take off mem) ≡ k - off = omega (arith, front) in
    drop-append_ge k (take off mem) (src ++ drop (off + length src) mem) (omega (arith, front))
    ∙ ap (λ n. drop n (src ++ drop (off + length src) mem)) first
    ∙ drop-append_ge (k - off) src (drop (off + length src) mem) (omega arith)
    ∙ drop-drop (off + length src) (k - off - length src) k mem (omega arith)
