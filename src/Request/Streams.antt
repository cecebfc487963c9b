-- ===== src/Request/Streams.antt =====
-- The streams that a request can be written to: a memory stream, and a connection with its peer.
use bee_c.Base.{List, ◌+◌, ◌%◌, ◌^◌, ◌<◌, ℕ, ◌≡◌, sym, ap, ◌∙◌, subst, true, Option, none, some}
use bee_c.Base.{◌++◌, length}
use bee_c.Msgpuck.{Msgpuck}
use bee_c.Buf.{Stream, Heap, ok, failure, fault, buf_writev}
use bee_c.Buf
use bee_c.Buf.Append.{IsValid, contents}
use bee_c.Buf.Vector.{buf_writev-Appended}
use bee_c.Io.{StreamNet, Peer, bytes, blocked, stuck, sendv}
use bee_c.Io
use bee_c.Io.Deliver.{IsValid as CanSend, Delivered}
use bee_c.Io.Vector.{sendv-Delivered}
use bee_c.Request.{Op, Wire, next}
use bee_c.Request.Packet.{Field, packet, Sends}

abbrev counted : Buf.Ret → Option ℕ
counted (ok n) = some n
counted failure = none
counted fault = none

-- A memory stream, with `beer_buf_writev`.
abbrev pub memory : Heap → Wire Stream
memory h = record {
  reqid = λ s. s.reqid;
  set_reqid = λ s n. record s { reqid = n };
  writev = λ s iov. let (r, t) = buf_writev h s iov in (counted r, t);
}

set_reqid-IsValid : (s : Stream) (n : ℕ) → IsValid s → IsValid (record s { reqid = n })
set_reqid-IsValid s n v = record {
  owned = v.owned;
  alive = v.alive;
  room = v.room;
  within = v.within;
  exact = v.exact;
}

-- What a request of `bytes` leaves of a memory stream.
pub record Stored (s : Stream) (bytes : List ℕ) (x : Option ℕ × Stream) : Type 0 where
  pub result : x.0 ≡ some (length bytes)
  pub valid : IsValid x.1
  pub bytes' : contents x.1 ≡ contents s ++ bytes
  pub id : x.1.reqid ≡ (s.reqid + 1) % 2 ^ 64

-- A request to a valid memory stream, with an allocator that never fails, returns the size of its
-- packet and appends the packet to the contents of the stream.
pub Sends-Stored :
    (mp : Msgpuck) (h : Heap) (op : Op) (fs : List Field) (s : Stream) (x : Option ℕ × Stream)
    → ((k n : ℕ) → h.grants k n ≡ true)
    → IsValid s
    → Sends mp (memory h) op fs s x
    → Stored s (packet mp op s.reqid fs) x
Sends-Stored mp h op fs s x willing v (iov, e, refl_x) =
    let (r, a) = buf_writev-Appended h willing (next (memory h) s) iov (set_reqid-IsValid s _ v) in
    subst (λ y. Stored s (packet mp op s.reqid fs) y) (sym refl_x)
      (record {
        result = ap counted r ∙ ap (λ b. some (length b)) e;
        valid = a.valid;
        bytes' = a.bytes ∙ ap (λ b. contents s ++ b) e;
        id = a.same_id;
      })

abbrev pub sent : Io.Ret → Option ℕ
sent (bytes n) = some n
sent Io.failure = none
sent blocked = none
sent stuck = none

-- A connection with its request id, and the peer; `beer_io_sendv`.
abbrev pub connection : Wire (ℕ × StreamNet × Peer)
connection = record {
  reqid = λ x. x.0;
  set_reqid = λ x n. (n, x.1, x.2);
  writev = λ x iov. let (r, t, q) = sendv x.1 iov x.2 in (sent r, (x.0, t, q));
}

-- A request of fewer than 2 ^ 63 bytes to a connection with a valid send buffer is, on every
-- result, the delivery of its packet as one write, and the id of the connection goes one up.
pub Sends-Delivered :
    (mp : Msgpuck) (op : Op) (fs : List Field) (n : ℕ) (s : StreamNet) (p : Peer)
    (x : Option ℕ × (ℕ × StreamNet × Peer))
    → CanSend s.sbuf
    → length (packet mp op n fs) < 2 ^ 63
    → Sends mp connection op fs (n, s, p) x
    → (y : Io.Ret × StreamNet × Peer) × (x ≡ (sent y.0, ((n + 1) % 2 ^ 64, y.1, y.2)))
      × Delivered s p (packet mp op n fs) y
Sends-Delivered mp op fs n s p x v small (iov, e, same) = (
  sendv s iov p,
  same,
  subst (λ b. Delivered s p b (sendv s iov p)) e
      (sendv-Delivered s iov p v (subst (λ b. length b < 2 ^ 63) (sym e) small)),
)
