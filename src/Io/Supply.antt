-- ===== src/Io/Supply.antt =====
-- Progress of `beer_io_recv` (beer/beer_io.c) where the peer has sent enough.
use bee_c.Base.{ℕ, zero, suc, ◌+◌, ◌-◌, ◌^◌, ◌≤◌, ◌<◌, ◌≡◌, refl, sym, ap, ◌∙◌, subst, true, false}
use bee_c.Base.{
  some, List, [], ◌∷◌, ◌++◌, length, take, drop, inl, inr, Bool, Bool-cases, not, ◌&&◌,
}
use bee_c.Base.{length-take, length-drop, ◌==◌, leb, arith}
use bee_c.Base.Memory.{write_at}
use bee_c.Io.{StreamNet, Peer, Answer, taken, failed, Ret, bytes, add_size, set_rbuf}
use bee_c.Io.{recv_loop, recv_raw, recv_refilled, recv_rounds, recv_through, recv}
use bee_c.Io.Receive.{IsValid}
use bee_c.Io.Progress.{Positive}
use Prim.Native.Nat.{min}

-- One `recv` that brings `part` into the buffer.
abbrev part_of : ℕ → ℕ → Peer → List ℕ
part_of k size p = take (min k (size - 0)) p.incoming

and_false : (b : Bool) → (b && false) ≡ false
and_false true = refl
and_false false = refl

recv_loop_taken :
    (s : StreamNet) (size k : ℕ) (later : List Answer) (p : Peer)
    → 0 < length (part_of k size p)
    → recv_loop s [] false size (taken k ∷ later) p ≡ (
      bytes (length (part_of k size p)),
      part_of k size p,
      s,
      record p { incoming = drop (length (part_of k size p)) p.incoming; answers = later },
    )
unfolding recv_loop
recv_loop_taken s size k later p h = elim (Bool-cases (length (part_of k size p) == 0)) [
  | inl y ↦ absurd (ground (arith, y))
  | inr n ↦ rw (n, and_false (not (length (part_of k size p) == size)))
]

abbrev Next : Type 0
Next = StreamNet → List ℕ → List ℕ → Peer → Ret × List ℕ × StreamNet × Peer

abbrev Round : StreamNet → ℕ → ℕ → Type 0
Round s size left =
    (s.rbuf.off ≤ s.rbuf.top) × (s.rbuf.off < 2 ^ 63) × (0 < s.rbuf.size) × (left < 2 ^ 63)

-- The bytes that are not in the buffer are to come, and there is an answer for each.
abbrev pub Supplied : StreamNet → ℕ → Peer → Type 0
Supplied s left p =
    (left ≤ (s.rbuf.top - s.rbuf.off) + length p.incoming)
    × (left ≤ (s.rbuf.top - s.rbuf.off) + length p.answers)
    × Positive p.answers

recv_raw_taken :
    (s : StreamNet) (size k : ℕ) (later : List Answer) (p : Peer)
    → p.answers ≡ taken k ∷ later
    → 0 < length (part_of k size p)
    → recv_raw s size false p ≡ (
      bytes (length (part_of k size p)),
      part_of k size p,
      s,
      record p { incoming = drop (length (part_of k size p)) p.incoming; answers = later },
    )
unfolding recv_raw
recv_raw_taken s size k later p e h =
    ap (λ a. recv_loop s [] false size a p) e ∙ recv_loop_taken s size k later p h

-- The end of a round after a call that brought `part`.
refilled_total :
    (mem got : List ℕ) (size rv : ℕ) (part : List ℕ) (s : StreamNet) (q : Peer) (again : Next)
    → 0 < length part
    → (length part < rv
        → (again (set_rbuf s (write_at mem 0 part) 0 (length part)) (write_at mem 0 part) got q).0
          ≡ bytes size)
    → (recv_refilled mem got size rv again (bytes (length part), part, s, q)).0 ≡ bytes size
unfolding recv_refilled
refilled_total mem got size rv part s q again h next = elim (Bool-cases (length part == 0)) [
  | inl y ↦ absurd (ground (arith, y))
  | inr n ↦ rw n (elim (Bool-cases (leb rv (length part))) [
    | inl y ↦ rw y
    | inr m ↦ rw m (next (ground (arith, m)))
  ])
]

-- A round that reads: `rv` bytes are wanted that the buffer does not hold.
Round-total :
    (a : List Answer) (s : StreamNet) (mem got : List ℕ) (size rv : ℕ) (p : Peer) (again : Next)
    → p.answers ≡ a
    → 0 < rv
    → 0 < s.rbuf.size
    → rv < 2 ^ 63
    → rv ≤ length p.incoming
    → rv ≤ length p.answers
    → Positive p.answers
    → ((t : StreamNet) (m : List ℕ) (q : Peer)
        → length q.answers < length p.answers
        → Round t size rv
        → Supplied t rv q
        → (again t m got q).0 ≡ bytes size)
    → (recv_refilled mem got size rv again (recv_raw s s.rbuf.size false p)).0 ≡ bytes size
Round-total [] s mem got size rv p again e h pos z i c d next = absurd (omega (arith, ap length e))
Round-total (failed x ∷ later) s mem got size rv p again e h pos z i c d next =
    absurd (subst Positive e d)
Round-total (taken k ∷ later) s mem got size rv p again e h pos z i c d next =
    let part = part_of k s.rbuf.size p in
    let (positive, rest) = subst Positive e d in
    let len = length-take (min k (s.rbuf.size - 0)) p.incoming in
    let brought : 0 < length part = omega (arith, len) in
    let q = record p { incoming = drop (length part) p.incoming; answers = later } in
    rw (recv_raw_taken s s.rbuf.size k later p e brought) (
      refilled_total mem got size rv part s q again brought (λ short.
        next (set_rbuf s (write_at mem 0 part) 0 (length part)) (write_at mem 0 part) q
          (omega (arith, ap length e)) (omega arith)
          (
            omega (arith, length-drop (length part) p.incoming, len),
            omega (arith, ap length e),
            rest,
          )))

recv_rounds_total :
    (fuel : ℕ) (s : StreamNet) (mem got : List ℕ) (size left : ℕ) (p : Peer)
    → length p.answers < fuel
    → Round s size left
    → Supplied s left p
    → (recv_rounds fuel s mem got size left p).0 ≡ bytes size
unfolding recv_rounds
recv_rounds_total zero s mem got size left p f v w = absurd (omega arith)
recv_rounds_total (suc fuel) s mem got size left p f v w =
    let rv = left - (s.rbuf.top - s.rbuf.off) in
    let got' = got ++ take (s.rbuf.top - s.rbuf.off) (drop s.rbuf.off mem) in
    let again : Next = λ t m g q. recv_rounds fuel t m g size rv q in
    elim (Bool-cases (leb (add_size s.rbuf.off left) s.rbuf.top)) [
      | inl y ↦ rw y
      | inr n ↦ rw n (
          Round-total p.answers (set_rbuf s mem 0 s.rbuf.top) mem got' size rv p again refl
            (ground (arith, n)) v.2 (omega arith) (omega arith) (omega arith) w.2
            (λ t m q fewer u x. recv_rounds_total fuel t m got' size rv q (omega arith) u x))
    ]

-- Receiving fewer than 2 ^ 63 bytes succeeds on a valid buffer of a positive size when the peer
-- has sent what the buffer lacks, an answer comes for each byte of it, and each answer moves a
-- byte at least.
pub recv_total :
    (s : StreamNet) (mem : List ℕ) (size : ℕ) (p : Peer)
    → s.rbuf.buf ≡ some mem
    → IsValid s.rbuf
    → 0 < s.rbuf.size
    → size < 2 ^ 63
    → Supplied s size p
    → (recv s size p).0 ≡ bytes size
unfolding recv recv_through
recv_total s mem size p b v pos z w =
    subst (λ o. (recv_through o s size p).0 ≡ bytes size) (sym b)
      (recv_rounds_total (suc (length p.answers)) s mem [] size size p (omega arith) (omega arith)
        w)
