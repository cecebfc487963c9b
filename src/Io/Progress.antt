-- ===== src/Io/Progress.antt =====
-- Progress of `beer_io_send` and `beer_io_flush` (beer/beer_io.c) where the calls move bytes.
use bee_c.Base.{ℕ, ◌+◌, ◌≤◌, ◌<◌, ◌≡◌, refl, sym, ap, ◌∙◌, subst, true}
use bee_c.Base.{some, List, [], ◌∷◌, ◌++◌, length, take, drop}
use bee_c.Base.{length-take, length-drop, ◌==◌, ltb, leb, arith, Bool-cases, inl, inr}
use bee_c.Io.{StreamNet, Peer, Answer, taken, failed, Ret, bytes, memory, add_size}
use bee_c.Io.{
  send_loop, send_raw, send_buffered, send_through, send, flush, and_then, send_buffer, emptied,
}
use bee_c.Io.Deliver.{IsValid, Room}
use Prim.Native.Nat.{min}

-- Every call moves a byte at least.
abbrev pub Positive : List Answer → Type 0
Positive [] = Unit {0}
Positive (taken k ∷ later) = (0 < k) × Positive later
Positive (failed e ∷ later) = ⊥

send_loop_total :
    (later : List Answer) (s : StreamNet) (rest : List ℕ) (off size : ℕ) (p : Peer)
    → off + length rest ≡ size
    → 0 < length rest
    → length rest ≤ length later
    → Positive later
    → (send_loop s rest true off size later p).0 ≡ bytes size
unfolding send_loop
send_loop_total [] s rest off size p e a b c = absurd (omega arith)
send_loop_total (failed x ∷ later) s rest off size p e a b c = absurd c
send_loop_total (taken k ∷ later) s rest off size p e a b (c, d) =
    let r = min k (length rest) in
    elim (Bool-cases (r == 0)) [
      | inl y ↦ absurd (ground (arith, y))
      | inr n ↦ rw n (elim (Bool-cases (off + r == size)) [
        | inl y ↦ rw y (ap bytes (ground (arith, y)))
        | inr m ↦ rw m (
            send_loop_total later s (drop r rest) (off + r) size
              (record p { wire = p.wire ++ take r rest }) (omega (arith, length-drop r rest))
              (ground (arith, m, length-drop r rest)) (ground (arith, n, length-drop r rest)) d)
      ])
    ]

and_then_total :
    (x : Ret × StreamNet × Peer) (n m : ℕ) (store : ℕ → StreamNet → Ret × StreamNet)
    → x.0 ≡ bytes n
    → ((k : ℕ) (t : StreamNet) → k ≡ n → (store k t).0 ≡ bytes m)
    → (and_then x store).0 ≡ bytes m
unfolding and_then
and_then_total (bytes k, t, q) n m store e h = h k t (ground (arith, e))
and_then_total (bee_c.Io.failure, t, q) n m store e h = cc
and_then_total (bee_c.Io.blocked, t, q) n m store e h = cc
and_then_total (bee_c.Io.stuck, t, q) n m store e h = cc

send_buffer_total :
    (s : StreamNet) (mem : List ℕ) (p : Peer)
    → s.sbuf.off ≤ length mem
    → 0 < s.sbuf.off
    → s.sbuf.off ≤ length p.answers
    → Positive p.answers
    → (send_buffer s mem p).0 ≡ bytes (length (take s.sbuf.off mem))
unfolding send_raw
send_buffer_total s mem p a b c d =
    let len = length-take s.sbuf.off mem in
    send_loop_total p.answers s (take s.sbuf.off mem) 0 (length (take s.sbuf.off mem)) p
      (omega arith) (omega (arith, len)) (omega (arith, len)) d

send_buffered_total :
    (s : StreamNet) (mem data' : List ℕ) (p : Peer)
    → length mem ≡ s.sbuf.size
    → IsValid s.sbuf
    → length data' ≤ s.sbuf.size
    → s.sbuf.off ≤ length p.answers
    → Positive p.answers
    → (send_buffered s mem data' p).0 ≡ bytes (length data')
unfolding send_buffered
send_buffered_total s mem data' p b v a c d = elim (Bool-cases (ltb s.sbuf.size (length data'))) [
  | inl big ↦ absurd (ground (arith, big))
  | inr fits ↦ rw fits (elim (Bool-cases (leb (add_size s.sbuf.off (length data')) s.sbuf.size)) [
    | inl roomy ↦ rw roomy
    | inr full ↦ rw full (
        and_then_total (send_buffer s mem p) (length (take s.sbuf.off mem)) (length data') _
          (send_buffer_total s mem p (omega arith) (ground (arith, full)) c d) (λ k t e. refl))
  ])
]

-- Sending data no longer than the buffer succeeds on a valid buffer when an answer comes for each
-- buffered byte and each answer moves a byte at least.
pub send_total :
    (s : StreamNet) (mem data' : List ℕ) (p : Peer)
    → s.sbuf.buf ≡ some mem
    → IsValid s.sbuf
    → length data' ≤ s.sbuf.size
    → s.sbuf.off ≤ length p.answers
    → Positive p.answers
    → (send s data' p).0 ≡ bytes (length data')
unfolding send send_through
send_total s mem data' p b v a c d =
    subst (λ o. (send_through o s data' p).0 ≡ bytes (length data')) (sym b)
      (send_buffered_total s mem data' p (subst (λ o. Room o s.sbuf.size) b v.room) v a c d)

-- Flushing a valid buffer returns the count of the buffered bytes when an answer comes for each
-- of them and each answer moves a byte at least.
pub flush_total :
    (s : StreamNet) (mem : List ℕ) (p : Peer)
    → s.sbuf.buf ≡ some mem
    → IsValid s.sbuf
    → s.sbuf.off ≤ length p.answers
    → Positive p.answers
    → (flush s p).0 ≡ bytes s.sbuf.off
unfolding flush
flush_total s mem p b v c d = elim (Bool-cases (s.sbuf.off == 0)) [
  | inl y ↦ rw y (ap bytes (ground (arith, y)))
  | inr n ↦ rw n (
      subst (λ o. (and_then (send_buffer s (memory o) p) emptied).0 ≡ bytes s.sbuf.off) (sym b)
        (and_then_total (send_buffer s mem p) (length (take s.sbuf.off mem)) s.sbuf.off emptied
          (send_buffer_total s mem p (omega (arith, len)) (ground (arith, n)) c d)
          (λ k t e. ap bytes (e ∙ all_of_it))))
]
  where
    len : length mem ≡ s.sbuf.size
    len = subst (λ o. Room o s.sbuf.size) b v.room

    all_of_it : length (take s.sbuf.off mem) ≡ s.sbuf.off
    all_of_it = omega (arith, len, length-take s.sbuf.off mem)
