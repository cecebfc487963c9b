-- ===== src/Io/Rounds.antt =====
-- The loop of `beer_io_recv` (beer/beer_io.c) over the stream of the peer.
use bee_c.Base.{ℕ, zero, suc, ◌+◌, ◌-◌, ◌^◌, ◌≤◌, ◌<◌, ◌≡◌, refl, sym, ap, ◌∙◌, subst, true, false}
use bee_c.Base.{Option, none, some, List, [], ◌++◌, append_assoc, length, take, drop}
use bee_c.Base.{
  length-append, take_all, drop_all, length-take, length-drop, ◌==◌, leb, arith, Bool-cases, inl,
  inr, ◌⊎◌,
}
use bee_c.Base.Memory.{write_at, take-write_at, length-write_at}
use bee_c.Io.{StreamNet, Peer, Ret, bytes, failure, blocked, stuck}
use bee_c.Io.{memory, add_size, recv_raw, recv_refilled, set_rbuf, recv_rounds, recv_through, recv}
use bee_c.Io.Deliver.{Room}
use bee_c.Io.Receive.{Received, recv_raw-Received, IsValid, window, stream, Taken, hand_out}

-- The state of a round: `mem` is the memory of the receive buffer.
record Round (s : StreamNet) (mem : List ℕ) : Type 0 where
  small : s.rbuf.size < 2 ^ 63
  start : s.rbuf.off ≤ s.rbuf.top
  within : s.rbuf.top ≤ s.rbuf.size
  room : length mem ≡ s.rbuf.size

abbrev unread : StreamNet → List ℕ → Peer → List ℕ
unread s mem p = window mem s.rbuf.off s.rbuf.top ++ p.incoming

set_rbuf-IsValid :
    (s : StreamNet) (mem : List ℕ) (off top : ℕ)
    → s.rbuf.size < 2 ^ 63
    → off ≤ top
    → top ≤ s.rbuf.size
    → length mem ≡ s.rbuf.size
    → IsValid (set_rbuf s mem off top).rbuf
set_rbuf-IsValid s mem off top a b c d = record { small = a; start = b; within = c; room = d }

-- The bytes wanted are in the buffer, up to index `b`.
buffered-Taken :
    (s : StreamNet) (mem got : List ℕ) (size left b : ℕ) (p : Peer)
    → Round s mem
    → length got + left ≡ size
    → left ≡ b - s.rbuf.off
    → s.rbuf.off ≤ b
    → b ≤ s.rbuf.top
    → Taken
        (got ++ unread s mem p)
        size
        s.error
        (bytes size, got ++ take left (drop s.rbuf.off mem), set_rbuf s mem b s.rbuf.top, p)
buffered-Taken s mem got size left b p v e l h k = (
  refl,
  omega (
    arith,
    length-append got (take left (drop s.rbuf.off mem)),
    length-take left (drop s.rbuf.off mem),
    length-drop s.rbuf.off mem,
  ),
  ap (λ x. (got ++ take x (drop s.rbuf.off mem)) ++ (window mem b s.rbuf.top ++ p.incoming)) l
      ∙ hand_out mem got p.incoming s.rbuf.off b s.rbuf.top h k,
  set_rbuf-IsValid s mem b s.rbuf.top v.small k v.within v.room,
  refl,
)

-- A refill stores what came at the start of the buffer.
refill-Round :
    (s : StreamNet) (mem part : List ℕ)
    → s.rbuf.size < 2 ^ 63
    → length mem ≡ s.rbuf.size
    → length part ≤ s.rbuf.size
    → Round (set_rbuf s (write_at mem 0 part) 0 (length part)) (write_at mem 0 part)
refill-Round s mem part a b c = record {
  small = a;
  start = omega arith;
  within = c;
  room = length-write_at mem 0 part (omega arith) ∙ b;
}

window-refill : (mem part : List ℕ) → window (write_at mem 0 part) 0 (length part) ≡ part
window-refill mem part = take-write_at mem 0 part (length part - 0) (omega arith) (omega arith)

-- The next round, as the loop calls it.
abbrev Next : Type 0
Next = StreamNet → List ℕ → List ℕ → Peer → Ret × List ℕ × StreamNet × Peer

recv_refilled-Taken :
    (s : StreamNet) (mem got whole : List ℕ) (size rv answers : ℕ) (again : Next)
    (x : Ret × List ℕ × StreamNet × Peer)
    → s.rbuf.size < 2 ^ 63
    → length mem ≡ s.rbuf.size
    → length got + rv ≡ size
    → ((t : StreamNet) (m : List ℕ) (q : Peer)
        → Round t m
        → length q.answers < answers
        → Taken (got ++ unread t m q) size t.error (again t m got q))
    → Received s [] whole false s.rbuf.size answers x
    → Taken (got ++ whole) size s.error (recv_refilled mem got size rv again x)
unfolding recv_refilled
recv_refilled-Taken s mem got whole size rv answers again (bytes top, part, t, q) a b e next
      (et, en, fit, more, es, _, fewer) =
    rw (et, en) (refilled (Bool-cases (length part == 0)) (Bool-cases (leb rv (length part))))
  where
    mem' : List ℕ
    mem' = write_at mem 0 part

    s' : StreamNet
    s' = set_rbuf s mem' 0 (length part)

    v : Round s' mem'
    v = refill-Round s mem part a b fit

    whole_lem : unread s' mem' q ≡ whole
    whole_lem = ap (λ x. x ++ q.incoming) (window-refill mem part) ∙ es

    refilled :
        ((length part == 0) ≡ true) ⊎ ((length part == 0) ≡ false)
        → (leb rv (length part) ≡ true) ⊎ (leb rv (length part) ≡ false)
        → Taken
            (got ++ whole)
            size
            s.error
            (recv_refilled mem got size rv again (bytes (length part), part, s, q))
    refilled (inl z) _ = absurd (ground (arith, z, en, more))
    refilled (inr z) (inl y) =
        rw (z, y)
          (subst
            (λ x.
              Taken (got ++ x) size s.error
                (bytes size, got ++ take rv mem', set_rbuf s mem' rv (length part), q))
            whole_lem
            (buffered-Taken s' mem' got size rv rv q v e (omega arith) (omega arith)
              (ground (arith, y))))
    refilled (inr z) (inr n) =
        rw (z, n)
          (subst (λ x. Taken (got ++ x) size s.error (again s' mem' got q)) whole_lem
            (next s' mem' q v fewer))
recv_refilled-Taken s mem got whole size rv answers again (failure, part, t, q) a b e next
      (et, es, none_read) =
    (ap (λ x. got ++ x) (ap (λ x. x ++ q.incoming) (sym (none_read refl)) ∙ es), refl)
recv_refilled-Taken s mem got whole size rv answers again (blocked, part, t, q) a b e next
      (et, es, none_read) =
    (
      ap (λ x. got ++ x) (ap (λ x. x ++ q.incoming) (sym (none_read refl)) ∙ es),
      ap (λ x. x.error) et,
    )
recv_refilled-Taken s mem got whole size rv answers again (stuck, part, t, q) a b e next x = x

recv_rounds-Taken :
    (fuel : ℕ) (s : StreamNet) (mem got : List ℕ) (size left : ℕ) (p : Peer)
    → length p.answers < fuel
    → size < 2 ^ 63
    → Round s mem
    → length got + left ≡ size
    → Taken (got ++ unread s mem p) size s.error (recv_rounds fuel s mem got size left p)
unfolding recv_rounds
recv_rounds-Taken zero s mem got size left p f z v e = absurd (omega arith)
recv_rounds-Taken (suc fuel) s mem got size left p f z v e =
    let lv = s.rbuf.top - s.rbuf.off in
    let got' = got ++ take lv (drop s.rbuf.off mem) in
    let again : Next = λ t m g q. recv_rounds fuel t m g size (left - lv) q in
    let held : length got' ≡ length got + lv = omega (
      arith,
      length-append got (take lv (drop s.rbuf.off mem)),
      length-take lv (drop s.rbuf.off mem),
      length-drop s.rbuf.off mem,
    ) in
    elim (Bool-cases (leb (add_size s.rbuf.off left) s.rbuf.top)) [
      | inl y ↦ rw y (
          buffered-Taken s mem got size left (add_size s.rbuf.off left) p v e (omega arith)
            (omega arith) (ground (arith, y)))
      | inr n ↦ rw n (
          subst
            (λ x. Taken x size s.error (
              recv_refilled mem got' size (left - lv) again
                (recv_raw (set_rbuf s mem 0 s.rbuf.top) s.rbuf.size false p)))
            (append_assoc got (window mem s.rbuf.off s.rbuf.top) p.incoming)
            (recv_refilled-Taken (set_rbuf s mem 0 s.rbuf.top) mem got' p.incoming size (left - lv)
              (length p.answers) again (recv_raw (set_rbuf s mem 0 s.rbuf.top) s.rbuf.size false p)
              v.small v.room (ground (arith, n, held))
              (λ t m q w fewer.
                recv_rounds-Taken fuel t m got' size (left - lv) q (omega arith) z w
                  (ground (arith, n, held)))
              (recv_raw-Received (set_rbuf s mem 0 s.rbuf.top) s.rbuf.size false p)))
    ]

-- Without a buffer nothing is held back.
stream_of_null : (s : StreamNet) (p : Peer) → s.rbuf.buf ≡ none → stream s p ≡ p.incoming
stream_of_null s p e = ap (λ x. x ++ p.incoming) (whole ∙ empty)
  where
    n : ℕ
    n = s.rbuf.top - s.rbuf.off

    whole : window (memory s.rbuf.buf) s.rbuf.off s.rbuf.top ≡ take {A = ℕ} n (drop s.rbuf.off [])
    whole = ap (λ o. take n (drop s.rbuf.off (memory o))) e

    empty : take {A = ℕ} n (drop s.rbuf.off []) ≡ []
    empty = ap (take {A = ℕ} n) (drop_all s.rbuf.off [] (omega arith)) ∙ take_all n [] (omega arith)

unbuffered-Taken :
    (s : StreamNet) (p : Peer) (size answers : ℕ) (x : Ret × List ℕ × StreamNet × Peer)
    → s.rbuf.buf ≡ none
    → IsValid s.rbuf
    → Received s [] p.incoming true size answers x
    → Taken (stream s p) size s.error x
unbuffered-Taken s p size answers (bytes n, got, t, q) e v (et, en, _, _, es, all, _) = (
  all refl,
  sym en ∙ all refl,
  ap (λ x. got ++ stream x q) et
      ∙ ap (λ x. got ++ x) (stream_of_null s q e)
      ∙ es
      ∙ sym (stream_of_null s p e),
  subst (λ x. IsValid x.rbuf) (sym et) v,
  ap (λ x. x.error) et,
)
unbuffered-Taken s p size answers (failure, got, t, q) e v (et, es, _) =
    (es ∙ sym (stream_of_null s p e), ap (λ x. x.error) et)
unbuffered-Taken s p size answers (blocked, got, t, q) e v (et, es, _) =
    (es ∙ sym (stream_of_null s p e), ap (λ x. x.error) et)
unbuffered-Taken s p size answers (stuck, got, t, q) e v x = absurd x

recv_through-Taken :
    (b : Option (List ℕ)) (s : StreamNet) (size : ℕ) (p : Peer)
    → s.rbuf.buf ≡ b
    → IsValid s.rbuf
    → size < 2 ^ 63
    → Taken (stream s p) size s.error (recv_through b s size p)
unfolding recv_through
recv_through-Taken none s size p e v z =
    unbuffered-Taken s p size (length p.answers) (recv_raw s size true p) e v
      (recv_raw-Received s size true p)
recv_through-Taken (some mem) s size p e v z =
    subst (λ x. Taken x size s.error (recv_through (some mem) s size p))
      (ap (λ o. window (memory o) s.rbuf.off s.rbuf.top ++ p.incoming) (sym e))
      (recv_rounds-Taken (suc (length p.answers)) s mem [] size size p (omega arith) z
        (record {
          small = v.small;
          start = v.start;
          within = v.within;
          room = subst (λ o. Room o s.rbuf.size) e v.room;
        })
        (omega arith))

-- Receiving fewer than 2 ^ 63 bytes into a valid buffer never loses or reorders a byte: a success
-- hands out exactly the next bytes of the stream, which is what is buffered and what is still to
-- come, and leaves the rest of it and a valid buffer; on a failure, or where no answer comes, the
-- bytes taken and those still to come are the stream. The loop never runs out of its fuel.
pub recv-Taken :
    (s : StreamNet) (size : ℕ) (p : Peer)
    → IsValid s.rbuf
    → size < 2 ^ 63
    → Taken (stream s p) size s.error (recv s size p)
unfolding recv
recv-Taken s size p v z = recv_through-Taken s.rbuf.buf s size p refl v z
