-- ===== src/Io/Session.antt =====
-- Sessions of calls of beer/beer_io.c on one connection, and `beer_io_flush`.
use bee_c.Base.{ℕ, ◌^◌, ◌<◌, ◌≡◌, refl, sym, ap, ◌∙◌, subst, Bool-cases, inl, inr}
use bee_c.Base.{
  Option, none, some, List, [], ◌∷◌, ◌++◌, append-nil, append_assoc, length, take, concat,
}
use bee_c.Base.{◌==◌, arith}
use mathlib.Core.Option.{some-injective}
use bee_c.Io.{StreamNet, Peer, Ret, bytes, failure, blocked, stuck, memory}
use bee_c.Io.{send, sendv, flush, and_then, send_buffer, emptied}
use bee_c.Io.Deliver.{IsValid, pending, Delivered, send-Delivered}
use bee_c.Io.Raw.{Sent, Partly, send_raw-Sent}
use bee_c.Io.Vector.{sendv-Delivered}

-- `beer_io_flush`: a success sends what is buffered and leaves the buffer empty; a failure keeps the
-- buffer as it was, though the peer may have got the first bytes of it.
abbrev pub Flushed : StreamNet → Peer → Ret × StreamNet × Peer → Type 0
Flushed s p (bytes n, t, q) =
    (n ≡ length (pending s)) × (q.wire ≡ p.wire ++ pending s) × (pending t ≡ []) × IsValid t.sbuf
Flushed s p (failure, t, q) = (t.sbuf ≡ s.sbuf) × Partly p.wire (pending s) q.wire
Flushed s p (blocked, t, q) = (t ≡ s) × Partly p.wire (pending s) q.wire
Flushed s p (stuck, t, q) = ⊥

emptied-Flushed :
    (s : StreamNet) (p : Peer) (size : ℕ) (x : Ret × StreamNet × Peer)
    → IsValid s.sbuf
    → size ≡ length (pending s)
    → Sent s p.wire (pending s) size x
    → Flushed s p (and_then x emptied)
unfolding and_then
emptied-Flushed s p size (bytes n, t, q) v e (et, en, ew) = (
  en ∙ e,
  ew,
  refl,
  subst (λ x. IsValid (record (x.sbuf) { off = 0 })) (sym et)
      (record { small = v.small; within = omega arith; room = v.room }),
)
emptied-Flushed s p size (failure, t, q) v e (et, ew) = (ap (λ x. x.sbuf) et, ew)
emptied-Flushed s p size (blocked, t, q) v e x = x
emptied-Flushed s p size (stuck, t, q) v e x = x

-- Flushing a valid buffer, on every result: a success sends what is buffered, returns its size
-- and leaves an empty and valid buffer; a failure keeps the buffer as it was, though the peer may
-- have got the first bytes of it; where no answer comes, the connection is unchanged.
pub flush-Flushed : (s : StreamNet) (p : Peer) → IsValid s.sbuf → Flushed s p (flush s p)
unfolding flush
flush-Flushed s p v = elim (Bool-cases (s.sbuf.off == 0)) [
  | inl y ↦ rw y (
      let zero_off : s.sbuf.off ≡ 0 = ground (arith, y) in
      let none_held : pending s ≡ [] = ap (λ n. take n (memory s.sbuf.buf)) zero_off in
      (
        sym (ap length none_held),
        sym (ap (λ x. p.wire ++ x) none_held ∙ append-nil p.wire),
        none_held,
        v,
      ))
  | inr n ↦ rw n (
      emptied-Flushed s p _ (send_buffer s (memory s.sbuf.buf) p) v refl
        (send_raw-Sent s (pending s) p))
]

-- The calls of a client.
pub data Call : Type 0 where
  write : List ℕ → Call
  writev : List (List ℕ) → Call
  sync : Call

abbrev pub call : Call → StreamNet → Peer → Ret × StreamNet × Peer
call (write data') s p = send s data' p
call (writev iov) s p = sendv s iov p
call sync s p = flush s p

-- What a call adds to the stream, and its size as the code can count it.
abbrev pub written : Call → List ℕ
written (write data') = data'
written (writev iov) = concat iov
written sync = []

-- The calls in order, up to one that does not succeed.
unfoldable pub run : StreamNet → List Call → Peer → Option (StreamNet × Peer)
run s [] p = some (s, p)
run s (c ∷ cs) p =
    let (r, t, q) = call c s p in let rest = run t cs q in elim r [ bytes n ↦ rest | _ ↦ none ]

abbrev pub all_written : List Call → List ℕ
all_written [] = []
all_written (c ∷ cs) = written c ++ all_written cs

abbrev pub AllSmall : List Call → Type 0
AllSmall [] = Unit {0}
AllSmall (c ∷ cs) = (length (written c) < 2 ^ 63) × AllSmall cs

-- What holds of a call that succeeded.
abbrev Grown : StreamNet → Peer → List ℕ → Ret × StreamNet × Peer → Type 0
Grown s p data' (bytes n, t, q) =
    (q.wire ++ pending t ≡ (p.wire ++ pending s) ++ data') × IsValid t.sbuf
Grown s p data' (failure, t, q) = Unit {0}
Grown s p data' (blocked, t, q) = Unit {0}
Grown s p data' (stuck, t, q) = Unit {0}

Delivered-Grown :
    (s : StreamNet) (p : Peer) (data' : List ℕ) (x : Ret × StreamNet × Peer)
    → Delivered s p data' x
    → Grown s p data' x
Delivered-Grown s p data' (bytes n, t, q) (a, b, c, d) = (b, c)
Delivered-Grown s p data' (failure, t, q) h = tt
Delivered-Grown s p data' (blocked, t, q) h = tt
Delivered-Grown s p data' (stuck, t, q) h = tt

Flushed-Grown :
    (s : StreamNet) (p : Peer) (x : Ret × StreamNet × Peer) → Flushed s p x → Grown s p [] x
Flushed-Grown s p (bytes n, t, q) (a, b, c, d) =
    (ap (λ x. q.wire ++ x) c ∙ append-nil q.wire ∙ b ∙ sym (append-nil (p.wire ++ pending s)), d)
Flushed-Grown s p (failure, t, q) h = tt
Flushed-Grown s p (blocked, t, q) h = tt
Flushed-Grown s p (stuck, t, q) h = tt

call-Grown :
    (c : Call) (s : StreamNet) (p : Peer)
    → IsValid s.sbuf
    → length (written c) < 2 ^ 63
    → Grown s p (written c) (call c s p)
call-Grown (write data') s p v h = Delivered-Grown s p data' _ (send-Delivered s data' p v)
call-Grown (writev iov) s p v h = Delivered-Grown s p (concat iov) _ (sendv-Delivered s iov p v h)
call-Grown sync s p v h = Flushed-Grown s p _ (flush-Flushed s p v)

run_step :
    (c : Call) (cs : List Call) (s t : StreamNet) (p q : Peer) (x : Ret × StreamNet × Peer)
    → Grown s p (written c) x
    → elim (x.0) [ bytes n ↦ run (x.1) cs (x.2) | _ ↦ none ] ≡ some (t, q)
    → (IsValid x.1.sbuf
        → run x.1 cs x.2 ≡ some (t, q)
        → (q.wire ++ pending t ≡ (x.2.wire ++ pending x.1) ++ all_written cs) × IsValid t.sbuf)
    → (q.wire ++ pending t ≡ (p.wire ++ pending s) ++ all_written (c ∷ cs)) × IsValid t.sbuf
run_step c cs s t p q (bytes n, t1, q1) (g, v) e next =
    let (h, w) = next v e in
    (
      h
          ∙ ap (λ x. x ++ all_written cs) g
          ∙ append_assoc (p.wire ++ pending s) (written c) (all_written cs),
      w,
    )
run_step c cs s t p q (failure, t1, q1) g e next = cc
run_step c cs s t p q (blocked, t1, q1) g e next = cc
run_step c cs s t p q (stuck, t1, q1) g e next = cc

-- After calls that all succeeded, the bytes on the wire and those in the buffer are the bytes that
-- were there before and then those written, in order.
pub run-Grown :
    (cs : List Call) (s t : StreamNet) (p q : Peer)
    → IsValid s.sbuf
    → AllSmall cs
    → run s cs p ≡ some (t, q)
    → (q.wire ++ pending t ≡ (p.wire ++ pending s) ++ all_written cs) × IsValid t.sbuf
unfolding run
run-Grown [] s t p q v small e =
    subst (λ x. (x.1.wire ++ pending x.0 ≡ (p.wire ++ pending s) ++ []) × IsValid x.0.sbuf)
      (some-injective _ _ e) (sym (append-nil (p.wire ++ pending s)), v)
run-Grown (c ∷ cs) s t p q v (h, small) e =
    run_step c cs s t p q (call c s p) (call-Grown c s p v h) e
      (λ w r. run-Grown cs _ t _ q w small r)

Flushed-wire :
    (t : StreamNet) (q : Peer) (n : ℕ) (x : Ret × StreamNet × Peer)
    → Flushed t q x
    → x.0 ≡ bytes n
    → x.2.wire ≡ q.wire ++ pending t
Flushed-wire t q n (bytes m, u, r) (a, b, c, d) e = b
Flushed-wire t q n (failure, u, r) h e = cc
Flushed-wire t q n (blocked, u, r) h e = cc
Flushed-wire t q n (stuck, u, r) h e = cc

-- On a valid send buffer, after writes, vector writes and flushes of fewer than 2 ^ 63 bytes each
-- that all succeeded, and a last flush that succeeds, the peer has got what it had before, the
-- bytes that were buffered, and the bytes of the calls, once and in order.
pub run_then_flush :
    (cs : List Call) (s t : StreamNet) (p q : Peer) (n : ℕ)
    → IsValid s.sbuf
    → AllSmall cs
    → run s cs p ≡ some (t, q)
    → (flush t q).0 ≡ bytes n
    → (flush t q).2.wire ≡ (p.wire ++ pending s) ++ all_written cs
run_then_flush cs s t p q n v small e f =
    let (g, w) = run-Grown cs s t p q v small e in
    Flushed-wire t q n (flush t q) (flush-Flushed t q w) f ∙ g
