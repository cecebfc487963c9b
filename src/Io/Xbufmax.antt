-- ===== src/Io/Xbufmax.antt =====
-- The search for the size of a buffer of the kernel: `beer_io_xbufmax` of beer/beer_io.c. `accepts` is
-- whether `setsockopt` succeeds for a size; the size that was set last is the state of the kernel.
use bee_c.Base.{
  ℕ, zero, suc, ◌+◌, ◌-◌, ◌*◌, ◌/◌, ◌^◌, ◌≤◌, ◌<◌, ◌≡◌, ap, ◌∙◌, Bool, Bool-cases, inl, inr, true,
  false, Option, none, some, leb, ◌==◌, if◌then◌else◌, arith,
}

-- 128 MiB.
abbrev pub xbuf_limit : ℕ
xbuf_limit = 128 * 1024 * 1024

-- `none` is a loop that used up its fuel.
unfoldable pub xbuf_loop : (ℕ → Bool) → ℕ → ℕ → ℕ → Option ℕ → Option (Option ℕ)
xbuf_loop accepts zero min max set = none
xbuf_loop accepts (suc fuel) min max set =
    let avg = (min + max) / 2 in
    let up = xbuf_loop accepts fuel (avg + 1) max (some avg) in
    let down = xbuf_loop accepts fuel min (avg - 1) set in
    if leb min max then (if accepts avg then up else down) else some set

abbrev pub at_least : ℕ → ℕ
at_least min = if min == 0 then 16384 else min

-- Each round halves what is left of fewer than 2 ^ 28 sizes.
unfoldable pub io_xbufmax : (ℕ → Bool) → ℕ → Option (Option ℕ)
unfolding xbuf_loop
io_xbufmax accepts min = xbuf_loop accepts 29 (at_least min) xbuf_limit none

at_least-pos : (min : ℕ) → 1 ≤ at_least min
at_least-pos min = ground arith

at_least-below : (min limit : ℕ) → min ≤ limit → 16384 ≤ limit → at_least min ≤ limit
at_least-below min limit low least = ground arith

module _ (accepts : ℕ → Bool) (limit : ℕ) (up_to : (n : ℕ) → accepts n ≡ leb n limit) where
  xbuf_loop-largest :
      (fuel min max : ℕ) (set : Option ℕ)
      → 1 ≤ min
      → min ≤ limit + 1
      → limit ≤ max
      → (min ≡ limit + 1 → set ≡ some limit)
      → max + 1 < 2 ^ fuel + min
      → xbuf_loop accepts (suc fuel) min max set ≡ some (some limit)
  unfolding xbuf_loop
  xbuf_loop-largest zero min max set p h k last f =
      let beyond : leb min max ≡ false = ground arith in rw beyond (ap some (last (omega arith)))
  xbuf_loop-largest (suc fuel) min max set p h k last f =
      let avg = (min + max) / 2 in
      elim (Bool-cases (leb min max)) [
        | inl y ↦
            let within : min ≤ max = ground arith in
            elim (Bool-cases (leb avg limit)) [
              | inl a ↦
                  let low : avg ≤ limit = ground arith in
                  let takes : accepts avg ≡ true = up_to avg ∙ a in
                  simp (y, takes)
                    (xbuf_loop-largest fuel (avg + 1) max (some avg) (omega arith) (omega arith) k
                      (λ e. ap some (omega arith)) (omega arith))
              | inr b ↦
                  let high : limit < avg = ground arith in
                  let refuses : accepts avg ≡ false = up_to avg ∙ b in
                  simp (y, refuses)
                    (xbuf_loop-largest fuel min (avg - 1) set p h (omega arith) last (omega arith))
            ]
        | inr n ↦ let beyond : max < min = ground arith in rw n (ap some (last (omega arith)))
      ]

  -- Where the kernel accepts exactly the sizes up to a limit, which is no less than the smallest
  -- size wanted and than 16384, and no more than 128 MiB, the search ends, and the size that it
  -- leaves set is the limit.
  pub io_xbufmax-largest :
      (min : ℕ)
      → min ≤ limit
      → 16384 ≤ limit
      → limit ≤ xbuf_limit
      → io_xbufmax accepts min ≡ some (some limit)
  unfolding io_xbufmax
  io_xbufmax-largest min low least high =
      xbuf_loop-largest 28 (at_least min) xbuf_limit none (at_least-pos min)
        (omega (arith, at_least-below min limit low least)) high
        (λ e. absurd (omega (arith, at_least-below min limit low least)))
        (omega (arith, at_least-pos min))
