-- ===== src/Io/Buffer.antt =====
-- beer/beer_iob.c, and `beer_io_close` of beer/beer_io.c.
use bee_c.Base.{
  ℕ, ◌^◌, ◌<◌, ◌≡◌, refl, true, false, Bool, Bool-cases, inl, inr, List, [], ◌∷◌, length,
}
use bee_c.Base.{Option, none, some, zero, suc, ltb, if◌then◌else◌, ap, arith}
use bee_c.Io.{Iob, StreamNet}
use bee_c.Io.Deliver.{IsValid as CanSend}
use bee_c.Io.Receive.{IsValid as CanReceive}

abbrev pub zeroes : ℕ → List ℕ
zeroes zero = []
zeroes (suc n) = 0 ∷ zeroes n

-- `granted` is whether `beer_mem_alloc` finds the memory. The result is false for -1.
unfoldable pub iob_init : ℕ → Bool → Bool → Bool → Bool × Iob
iob_init size tx txv granted =
    if ltb 0 size
    then if granted
      then (
        true,
        record { buf = some (zeroes size); off = 0; top = 0; size = size; tx = tx; txv = txv },
      )
      else (false, record { buf = none; off = 0; top = 0; size = size; tx = tx; txv = txv })
    else (true, record { buf = none; off = 0; top = 0; size = size; tx = tx; txv = txv })

unfoldable pub iob_clear : Iob → Iob
iob_clear b = record b { top = 0; off = 0 }

-- `close(fd)` for a descriptor above 0.
unfoldable pub io_close : StreamNet → StreamNet
io_close s = record s { connected = false; fd = closed s.fd }
  where
    closed : Option ℕ → Option ℕ
    closed none = none
    closed (some zero) = some zero
    closed (some (suc n)) = none

length-zeroes : (n : ℕ) → length (zeroes n) ≡ n
length-zeroes zero = refl
length-zeroes (suc n) = ap suc (length-zeroes n)

-- A buffer of fewer than 2 ^ 63 bytes whose set-up succeeds is a valid send buffer and a valid
-- receive buffer.
pub iob_init-IsValid :
    (size : ℕ) (tx txv granted : Bool)
    → size < 2 ^ 63
    → (iob_init size tx txv granted).0 ≡ true
    → CanSend (iob_init size tx txv granted).1 × CanReceive (iob_init size tx txv granted).1
unfolding iob_init
iob_init-IsValid size tx txv true h e = elim (Bool-cases (ltb 0 size)) [
  | inl y ↦ rw y (
    record { small = h; within = omega arith; room = length-zeroes size },
    record { small = h; start = omega arith; within = omega arith; room = length-zeroes size },
  )
  | inr n ↦ rw n (
    record { small = h; within = omega arith; room = ground (arith, n) },
    record { small = h; start = omega arith; within = omega arith; room = ground (arith, n) },
  )
]
iob_init-IsValid size tx txv false h e = elim (Bool-cases (ltb 0 size)) [
  | inl y ↦ absurd (ground (arith, y, e))
  | inr n ↦ rw n (
    record { small = h; within = omega arith; room = ground (arith, n) },
    record { small = h; start = omega arith; within = omega arith; room = ground (arith, n) },
  )
]
