-- ===== src/Io/Receive.antt =====
-- What `beer_io_recv` makes of the byte stream from the peer.
use bee_c.Base.{ℕ, zero, suc, ◌-◌, ◌^◌, ◌≤◌, ◌<◌, ◌≡◌, refl, sym, ap, ◌∙◌, subst, true, false}
use bee_c.Base.{Bool, List, [], ◌∷◌, ◌++◌, append_assoc, length, take, drop}
use bee_c.Base.{length-drop, length-append, length-take, take_add, drop-drop}
use bee_c.Base.{◌==◌, arith, Bool-cases, inl, inr, not, ◌&&◌}
use bee_c.Io.{
  StreamNet, Peer, Iob, Answer, taken, failed, Ret, bytes, failure, blocked, stuck, Error,
}
use bee_c.Io.{esystem, eintr, memory, recv_loop, recv_raw}
use bee_c.Io.Deliver.{Room}
use Prim.Native.Nat.{min}

-- What `recv_loop` leaves behind: the bytes stored and those still to come are the stream. A
-- success has taken an answer and some bytes, all that was asked for if `all` is set; without
-- `all` the other results have taken none.
abbrev pub Received :
    StreamNet → List ℕ → List ℕ → Bool → ℕ → ℕ → Ret × List ℕ × StreamNet × Peer → Type 0
Received s start stream all size answers (bytes n, got, t, q) =
    (t ≡ s)
    × (n ≡ length got)
    × (length got ≤ size)
    × (0 < n)
    × (got ++ q.incoming ≡ stream)
    × (all ≡ true → n ≡ size)
    × (length q.answers < answers)
Received s start stream all size answers (failure, got, t, q) =
    (t ≡ record s { error = esystem; errno_ = t.errno_ })
    × (got ++ q.incoming ≡ stream)
    × (all ≡ false → got ≡ start)
Received s start stream all size answers (blocked, got, t, q) =
    (t ≡ s) × (got ++ q.incoming ≡ stream) × (all ≡ false → got ≡ start)
Received s start stream all size answers (stuck, got, t, q) = ⊥

-- One more round in front, which took no byte unless `all` is set.
Received-more :
    (s : StreamNet) (start from stream : List ℕ) (all : Bool) (size n : ℕ)
    (x : Ret × List ℕ × StreamNet × Peer)
    → (all ≡ false → from ≡ start)
    → Received s from stream all size n x
    → Received s start stream all size (suc n) x
Received-more s start from stream all size n (bytes k, got, t, q) h (a, b, c, d, e, f, g) =
    (a, b, c, d, e, f, omega arith)
Received-more s start from stream all size n (failure, got, t, q) h (a, b, c) =
    (a, b, λ e. c e ∙ h e)
Received-more s start from stream all size n (blocked, got, t, q) h (a, b, c) =
    (a, b, λ e. c e ∙ h e)
Received-more s start from stream all size n (stuck, got, t, q) h x = x

-- The bytes of one answer move from the stream to come to those stored.
took :
    (got incoming : List ℕ) (r : ℕ)
    → (got ++ take r incoming) ++ drop (length (take r incoming)) incoming ≡ got ++ incoming
took got incoming r =
    append_assoc got (take r incoming) (drop (length (take r incoming)) incoming)
    ∙ ap (λ x. got ++ x) (front r incoming)
  where
    front : (r : ℕ) (xs : List ℕ) → take r xs ++ drop (length (take r xs)) xs ≡ xs
    front zero xs = refl
    front (suc r) [] = refl
    front (suc r) (x ∷ xs) = ap (◌∷◌ x) (front r xs)

all_read : (n size : ℕ) (all : Bool) → (not (n == size) && all) ≡ false → all ≡ true → n ≡ size
all_read n size all d e = ground arith

needs_all : (b all : Bool) → (b && all) ≡ true → (start from : List ℕ) → all ≡ false → from ≡ start
needs_all true true e start from h = cc
needs_all true false e start from h = cc
needs_all false all e start from h = cc

recv_loop-Received :
    (later : List Answer) (s : StreamNet) (got : List ℕ) (all : Bool) (size : ℕ) (p : Peer)
    → length got ≤ size
    → Received s got (got ++ p.incoming) all size (length later) (recv_loop s got all size later p)
unfolding recv_loop
recv_loop-Received [] s got all size p h = (refl, refl, λ _. refl)
recv_loop-Received (failed c ∷ later) s got all size p h =
    elim (Bool-cases (not s.rbuf.tx && c == eintr)) [
      | inl y ↦ rw y (
          Received-more s got got _ all size (length later) _ (λ _. refl)
            (recv_loop-Received later s got all size (record p { errno = c }) h))
      | inr n ↦ rw n (refl, refl, λ _. refl)
    ]
recv_loop-Received (taken k ∷ later) s got all size p h =
    let r = min k (size - length got) in
    let part = take r p.incoming in
    let p' = record p { incoming = drop (length part) p.incoming } in
    let len = length-append got part in
    let fits : length (got ++ part) ≤ size = omega (arith, len, length-take r p.incoming) in
    elim (Bool-cases (length part == 0)) [
      | inl y ↦ rw y (refl, refl, λ _. refl)
      | inr n ↦ rw n (elim (Bool-cases (not (length (got ++ part) == size) && all)) [
        | inl m ↦ rw m (
            Received-more s got (got ++ part) _ all size (length later) _
              (needs_all (not (length (got ++ part) == size)) all m got (got ++ part))
              (subst
                (λ x.
                  Received s (got ++ part) x all size (length later)
                    (recv_loop s (got ++ part) all size later p'))
                (took got p.incoming r)
                (recv_loop-Received later s (got ++ part) all size p' fits)))
        | inr d ↦ rw d (
          refl,
          refl,
          fits,
          ground (arith, n, len),
          took got p.incoming r,
          all_read (length (got ++ part)) size all d,
          omega arith,
        )
      ])
    ]

pub recv_raw-Received :
    (s : StreamNet) (size : ℕ) (all : Bool) (p : Peer)
    → Received s [] p.incoming all size (length p.answers) (recv_raw s size all p)
unfolding recv_raw
recv_raw-Received s size all p = recv_loop-Received p.answers s [] all size p (omega arith)

-- A receive buffer: the bytes from `off` to `top` are still to be handed out.
pub record IsValid (b : Iob) : Type 0 where
  pub small : b.size < 2 ^ 63
  pub start : b.off ≤ b.top
  pub within : b.top ≤ b.size
  pub room : Room b.buf b.size

-- The bytes from index `a` to index `b`.
abbrev pub window : List ℕ → ℕ → ℕ → List ℕ
window mem a b = take (b - a) (drop a mem)

window_split :
    (mem : List ℕ) (a b c : ℕ) → a ≤ b → b ≤ c → window mem a b ++ window mem b c ≡ window mem a c
window_split mem a b c h k =
    ap (λ x. window mem a b ++ take (c - b) x) (sym (drop-drop a (b - a) b mem (omega arith)))
    ∙ sym (take_add (b - a) (c - b) (c - a) (drop a mem) (omega arith))

-- The stream from the peer: what is buffered, and what is still to come.
abbrev pub stream : StreamNet → Peer → List ℕ
stream s p = window (memory s.rbuf.buf) s.rbuf.off s.rbuf.top ++ p.incoming

-- What `beer_io_recv` does to the stream `whole`: a success hands out its next `size` bytes, and
-- no result loses a byte.
abbrev pub Taken : List ℕ → ℕ → Error → Ret × List ℕ × StreamNet × Peer → Type 0
Taken whole size err (bytes n, got, t, q) =
    (n ≡ size)
    × (length got ≡ size)
    × (got ++ stream t q ≡ whole)
    × IsValid t.rbuf
    × (t.error ≡ err)
Taken whole size err (failure, got, t, q) = (got ++ q.incoming ≡ whole) × (t.error ≡ esystem)
Taken whole size err (blocked, got, t, q) = (got ++ q.incoming ≡ whole) × (t.error ≡ err)
Taken whole size err (stuck, got, t, q) = ⊥

-- The next `n` buffered bytes move to the caller.
pub hand_out :
    (mem got incoming : List ℕ) (a b c : ℕ)
    → a ≤ b
    → b ≤ c
    → (got ++ window mem a b) ++ (window mem b c ++ incoming) ≡ got ++ (window mem a c ++ incoming)
hand_out mem got incoming a b c h k =
    append_assoc got (window mem a b) (window mem b c ++ incoming)
    ∙ ap (λ x. got ++ x)
        (sym (append_assoc (window mem a b) (window mem b c) incoming)
          ∙ ap (λ x. x ++ incoming) (window_split mem a b c h k))

pub length-window :
    (mem : List ℕ) (a b : ℕ) → a ≤ b → b ≤ length mem → length (window mem a b) ≡ b - a
length-window mem a b h k = omega (arith, length-take (b - a) (drop a mem), length-drop a mem)
