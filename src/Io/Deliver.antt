-- ===== src/Io/Deliver.antt =====
-- What the sending functions of beer/beer_io.c do to the byte stream to the peer.
use bee_c.Base.{ℕ, ◌+◌, ◌^◌, ◌≤◌, ◌<◌, ◌≡◌, refl, sym, ap, ◌∙◌, subst, true, Option, none, some}
use bee_c.Base.{List, [], ◌++◌, append-nil, append_assoc, length, take, ltb, leb, arith}
use bee_c.Base.{length-append, take-append_le, take_all, Bool-cases, ◌⊎◌, inl, inr}
use bee_c.Base.Memory.{take-write_at, length-write_at}
use bee_c.Io.{StreamNet, Peer, Iob, Ret, bytes, failure, blocked, stuck}
use bee_c.Io.{esystem, ebig, memory, add_size}
use bee_c.Io.{send_raw, and_then, send_buffered, send_buffer, send_through, send, put}
use bee_c.Io.Raw.{Partly, Sent, send_raw-Sent}

abbrev pub Room : Option (List ℕ) → ℕ → Type 0
Room none size = size ≡ 0
Room (some mem) size = length mem ≡ size

-- A send buffer as `beer_iob_init` and the sending functions leave it.
pub record IsValid (b : Iob) : Type 0 where
  pub small : b.size < 2 ^ 63
  pub within : b.off ≤ b.size
  pub room : Room b.buf b.size

-- The bytes that are buffered and not yet sent.
abbrev pub pending : StreamNet → List ℕ
pending s = take s.sbuf.off (memory s.sbuf.buf)

module _ (s : StreamNet) (mem : List ℕ) (off : ℕ) (data' : List ℕ) where
  pub pending-put :
      off + length data' ≤ length mem
      → length mem < 2 ^ 63
      → pending (put s mem off data') ≡ take off mem ++ data'
  pending-put h k =
      take-write_at mem off data' (add_size off (length data')) (omega arith) (omega arith)

  pub put-IsValid :
      off + length data' ≤ length mem
      → length mem < 2 ^ 63
      → length mem ≡ s.sbuf.size
      → IsValid (put s mem off data').sbuf
  put-IsValid h k e = record {
    small = omega arith;
    within = omega arith;
    room = length-write_at mem off data' h ∙ e;
  }

-- What `beer_io_send` and `beer_io_sendv` do with `data'`, on each result.
abbrev pub Delivered : StreamNet → Peer → List ℕ → Ret × StreamNet × Peer → Type 0
Delivered s p data' (bytes n, t, q) =
    (n ≡ length data')
    × (q.wire ++ pending t ≡ (p.wire ++ pending s) ++ data')
    × IsValid t.sbuf
    × (t.error ≡ s.error)
Delivered s p data' (failure, t, q) =
    (t.sbuf ≡ s.sbuf)
    × (((t.error ≡ ebig) × (s.sbuf.size < length data') × (q.wire ≡ p.wire))
        ⊎ ((t.error ≡ esystem) × Partly p.wire (pending s ++ data') q.wire))
Delivered s p data' (blocked, t, q) = (t ≡ s) × Partly p.wire (pending s ++ data') q.wire
Delivered s p data' (stuck, t, q) = ⊥

pub Partly-append :
    (wire xs ys wire' : List ℕ) → Partly wire xs wire' → Partly wire (xs ++ ys) wire'
Partly-append wire xs ys wire' (k, h, e) = (
  k,
  omega (arith, length-append xs ys),
  e ∙ ap (λ x. wire ++ x) (sym (take-append_le k xs ys h)),
)

-- What a copy into the buffer leaves there: `held`.
abbrev pub Stored : StreamNet → List ℕ → ℕ → Ret × StreamNet → Type 0
Stored s held size (bytes n, t) =
    (n ≡ size) × (pending t ≡ held) × IsValid t.sbuf × (t.error ≡ s.error)
Stored s held size (failure, t) = ⊥
Stored s held size (blocked, t) = ⊥
Stored s held size (stuck, t) = ⊥

pub Stored-Delivered :
    (s : StreamNet) (p q : Peer) (data' held : List ℕ) (y : Ret × StreamNet)
    → Stored s held (length data') y
    → q.wire ++ held ≡ (p.wire ++ pending s) ++ data'
    → Delivered s p data' (y.0, y.1, q)
Stored-Delivered s p q data' held (bytes n, t) (a, b, c, d) e =
    (a, ap (λ x. q.wire ++ x) b ∙ e, c, d)
Stored-Delivered s p q data' held (failure, t) h e = absurd h
Stored-Delivered s p q data' held (blocked, t) h e = absurd h
Stored-Delivered s p q data' held (stuck, t) h e = absurd h

-- A flush of the whole buffer, followed by a store at its start.
pub and_then-Delivered :
    (s : StreamNet) (p : Peer) (data' : List ℕ) (store : ℕ → StreamNet → Ret × StreamNet)
    (x : Ret × StreamNet × Peer) (size : ℕ)
    → ((n : ℕ) → Stored s data' (length data') (store n s))
    → Sent s p.wire (pending s) size x
    → Delivered s p data' (and_then x store)
unfolding and_then
and_then-Delivered s p data' store (bytes n, t, q) size h (et, en, ew) =
    rw et (Stored-Delivered s p q data' data' (store n s) (h n) (ap (λ x. x ++ data') ew))
and_then-Delivered s p data' store (failure, t, q) size h (et, ew) = (
  ap (λ x. x.sbuf) et,
  inr (ap (λ x. x.error) et, Partly-append p.wire (pending s) data' q.wire ew),
)
and_then-Delivered s p data' store (blocked, t, q) size h (et, ew) =
    (et, Partly-append p.wire (pending s) data' q.wire ew)
and_then-Delivered s p data' store (stuck, t, q) size h x = absurd x

put-Stored :
    (s : StreamNet) (mem : List ℕ) (off : ℕ) (data' : List ℕ)
    → off + length data' ≤ length mem
    → length mem < 2 ^ 63
    → length mem ≡ s.sbuf.size
    → Stored s (take off mem ++ data') (length data') (bytes (length data'), put s mem off data')
put-Stored s mem off data' h k e =
    (refl, pending-put s mem off data' h k, put-IsValid s mem off data' h k e, refl)

pub pending_of_buf :
    (s : StreamNet) (mem : List ℕ) → s.sbuf.buf ≡ some mem → pending s ≡ take s.sbuf.off mem
pending_of_buf s mem b = ap (λ o. take s.sbuf.off (memory o)) b

-- Data that fits goes behind what is buffered, and nothing is sent.
pub Stored-at_end :
    (s : StreamNet) (p : Peer) (mem data' : List ℕ) (y : Ret × StreamNet)
    → s.sbuf.buf ≡ some mem
    → Stored s (take s.sbuf.off mem ++ data') (length data') y
    → Delivered s p data' (y.0, y.1, p)
Stored-at_end s p mem data' y b h =
    Stored-Delivered s p p data' (take s.sbuf.off mem ++ data') y h (
      ap (λ x. p.wire ++ (x ++ data')) (sym (pending_of_buf s mem b))
      ∙ sym (append_assoc p.wire (pending s) data'))

-- A flush of the whole buffer sends what is pending.
pub send_buffer-Sent :
    (s : StreamNet) (p : Peer) (mem : List ℕ)
    → s.sbuf.buf ≡ some mem
    → Sent s p.wire (pending s) (length (take s.sbuf.off mem)) (send_buffer s mem p)
send_buffer-Sent s p mem b = rw (pending_of_buf s mem b) (send_raw-Sent s (take s.sbuf.off mem) p)

send_buffered-Delivered :
    (s : StreamNet) (mem data' : List ℕ) (p : Peer)
    → s.sbuf.buf ≡ some mem
    → IsValid s.sbuf
    → length mem ≡ s.sbuf.size
    → Delivered s p data' (send_buffered s mem data' p)
unfolding send_buffered
send_buffered-Delivered s mem data' p b v m = elim (Bool-cases (ltb s.sbuf.size (length data'))) [
  | inl big ↦ rw big (refl, inl (refl, ground (arith, big), refl))
  | inr fits ↦ rw fits (elim (Bool-cases (leb (add_size s.sbuf.off (length data')) s.sbuf.size)) [
    | inl roomy ↦ rw roomy (
        Stored-at_end s p mem data' (bytes (length data'), put s mem s.sbuf.off data') b
          (put-Stored s mem s.sbuf.off data' (ground (arith, roomy, fits)) (omega arith) m))
    | inr full ↦ rw full (
        and_then-Delivered s p data' _ (send_buffer s mem p) _
          (λ n. put-Stored s mem 0 data' (ground (arith, fits)) (omega arith) m)
          (send_buffer-Sent s p mem b))
  ])
]

pending_of_null : (s : StreamNet) → s.sbuf.buf ≡ none → pending s ≡ []
pending_of_null s b = ap (λ o. take s.sbuf.off (memory o)) b ∙ take_all s.sbuf.off [] (omega arith)

pub unbuffered-Delivered :
    (s : StreamNet) (p : Peer) (data' : List ℕ) (size : ℕ) (x : Ret × StreamNet × Peer)
    → s.sbuf.buf ≡ none
    → size ≡ length data'
    → IsValid s.sbuf
    → Sent s p.wire data' size x
    → Delivered s p data' x
unbuffered-Delivered s p data' size (bytes n, t, q) b z v (et, en, ew) = (
  en ∙ z,
  ap (λ x. q.wire ++ pending x) et
      ∙ ap (λ x. q.wire ++ x) (pending_of_null s b)
      ∙ append-nil q.wire
      ∙ ew
      ∙ ap (λ x. x ++ data')
          (sym (ap (λ x. p.wire ++ x) (pending_of_null s b) ∙ append-nil p.wire)),
  rw et v,
  ap (λ x. x.error) et,
)
unbuffered-Delivered s p data' size (failure, t, q) b z v (et, ew) =
    (ap (λ x. x.sbuf) et, inr (ap (λ x. x.error) et, rw (pending_of_null s b) ew))
unbuffered-Delivered s p data' size (blocked, t, q) b z v (et, ew) =
    (et, rw (pending_of_null s b) ew)
unbuffered-Delivered s p data' size (stuck, t, q) b z v h = absurd h

send_through-Delivered :
    (b : Option (List ℕ)) (s : StreamNet) (data' : List ℕ) (p : Peer)
    → s.sbuf.buf ≡ b
    → IsValid s.sbuf
    → Delivered s p data' (send_through b s data' p)
unfolding send_through
send_through-Delivered none s data' p e v =
    unbuffered-Delivered s p data' _ (send_raw s data' true p) e refl v (send_raw-Sent s data' p)
send_through-Delivered (some mem) s data' p e v =
    send_buffered-Delivered s mem data' p e v (subst (λ o. Room o s.sbuf.size) e v.room)

-- Sending on a valid send buffer, on every result: a success returns the size, and the wire with
-- what is buffered grows by exactly the data; a failure leaves the buffer and is either an
-- oversized write, which sends nothing, or a system error after a prefix of the buffered bytes
-- and the data; where no answer comes, the connection is unchanged after such a prefix.
pub send-Delivered :
    (s : StreamNet) (data' : List ℕ) (p : Peer)
    → IsValid s.sbuf
    → Delivered s p data' (send s data' p)
unfolding send
send-Delivered s data' p v = send_through-Delivered s.sbuf.buf s data' p refl v
