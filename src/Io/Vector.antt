-- ===== src/Io/Vector.antt =====
-- `beer_io_sendv` (beer/beer_io.c) over the byte stream to the peer.
use bee_c.Base.{
  ℕ, ◌+◌, ◌-◌, ◌^◌, ◌≤◌, ◌<◌, ◌≡◌, refl, sym, ap, ◌∙◌, subst, subst₂, true, false, Option, none,
  some,
}
use bee_c.Base.{List, [], ◌∷◌, ◌++◌, append-nil, append_assoc, length, take, drop, concat}
use bee_c.Base.{length-drop, length-append, length-take, take_all, take-take, take-append-drop}
use bee_c.Base.{drop-append_le, drop-append_ge, drop_all, take-append_le, concat-append}
use bee_c.Base.{◌==◌, ltb, leb, arith, Bool-cases, inl, inr, not, ◌&&◌}
use bee_c.Base.Memory.{write_at, take-write_at, length-write_at}
use bee_c.Io.{StreamNet, Peer, Answer, taken, failed, Ret, bytes}
use bee_c.Io.{eintr, add_size, advance, offered, sendv_loop, sendv_raw, sendv_buffered}
use bee_c.Io.{sendv_through, sendv, put_all, iov_size, send_buffer, iov_max}
use bee_c.Io.Deliver.{IsValid, Room, Delivered, Stored}
use bee_c.Io.Raw.{Sent, Sent-more, Partly-none}
use bee_c.Io.Deliver.{Stored-at_end, and_then-Delivered, send_buffer-Sent, unbuffered-Delivered}
use Prim.Native.Nat.{min}
use Prim.Native.Nat.add

-- `iov_base` and `iov_len` move over exactly the bytes that were sent.
pub concat-advance : (iov : List (List ℕ)) (r : ℕ) → concat (advance iov r) ≡ drop r (concat iov)
unfolding advance
concat-advance [] r = sym (drop_all r [] (omega arith))
concat-advance (v ∷ vs) r = elim (Bool-cases (ltb r (length v))) [
  | inl y ↦ rw y (sym (drop-append_le r v (concat vs) (ground (arith, y))))
  | inr n ↦
      rw n (
        concat-advance vs (r - length v) ∙ sym (drop-append_ge r v (concat vs) (ground (arith, n))))
]

-- A callback is offered a prefix of the vector.
take-offered :
    (txv : bee_c.Base.Bool) (iov : List (List ℕ)) (r : ℕ)
    → r ≤ length (concat (offered txv iov))
    → (take r (concat (offered txv iov)) ≡ take r (concat iov)) × (r ≤ length (concat iov))
take-offered false iov r h = (refl, h)
take-offered true iov r h = (
  sym (take-append_le r first rest h) ∙ ap (take r) whole,
  omega (arith, ap length whole, length-append first rest),
)
  where
    first : List ℕ
    first = concat (take iov_max iov)

    rest : List ℕ
    rest = concat (drop iov_max iov)

    whole : first ++ rest ≡ concat iov
    whole =
        sym (concat-append (take iov_max iov) (drop iov_max iov))
        ∙ ap concat (take-append-drop iov_max iov)

length-advance :
    (s : StreamNet) (iov : List (List ℕ)) (r : ℕ)
    → r ≤ length (concat (offered s.sbuf.txv iov))
    → r + length (concat (advance iov r)) ≡ length (concat iov)
length-advance s iov r h =
    let (same, short) = take-offered s.sbuf.txv iov r h in
    omega (arith, ap length (concat-advance iov r), length-drop r (concat iov))

-- One call that took `r` bytes, and the rest of the loop.
Sent-advance :
    (s : StreamNet) (iov : List (List ℕ)) (r size : ℕ) (wire : List ℕ) (x : Ret × StreamNet × Peer)
    → r ≤ length (concat (offered s.sbuf.txv iov))
    → Sent s (wire ++ take r (concat (offered s.sbuf.txv iov))) (concat (advance iov r)) size x
    → Sent s wire (concat iov) size x
Sent-advance s iov r size wire x h ih =
    let (same, short) = take-offered s.sbuf.txv iov r h in
    Sent-more s r wire (concat iov) size x short
      (subst₂ (λ w d. Sent s w d size x) (ap (λ y. wire ++ y) same) (concat-advance iov r) ih)

sendv_loop-Sent :
    (later : List Answer) (s : StreamNet) (iov : List (List ℕ)) (total size : ℕ) (p : Peer)
    → total + length (concat iov) ≡ size
    → Sent s p.wire (concat iov) size (sendv_loop s iov true total later p)
unfolding sendv_loop
sendv_loop-Sent later s [] total size p e = (refl, omega arith, sym (append-nil p.wire))
sendv_loop-Sent [] s (v ∷ vs) total size p e = (refl, Partly-none p.wire (concat (v ∷ vs)))
sendv_loop-Sent (failed c ∷ later) s (v ∷ vs) total size p e =
    elim (Bool-cases (not s.sbuf.txv && c == eintr)) [
      | inl y ↦ rw y (sendv_loop-Sent later s (v ∷ vs) total size (record p { errno = c }) e)
      | inr n ↦ rw n (refl, Partly-none p.wire (concat (v ∷ vs)))
    ]
sendv_loop-Sent (taken k ∷ later) s (v ∷ vs) total size p e =
    let r = min k (length (concat (offered s.sbuf.txv (v ∷ vs)))) in
    elim (Bool-cases (r == 0)) [
      | inl y ↦ rw y (refl, Partly-none p.wire (concat (v ∷ vs)))
      | inr n ↦ rw n (
          Sent-advance s (v ∷ vs) r size p.wire _ (omega arith) (
            sendv_loop-Sent later s (advance (v ∷ vs) r) (total + r) size
              (record p { wire = p.wire ++ take r (concat (offered s.sbuf.txv (v ∷ vs))) })
              (omega (arith, length-advance s (v ∷ vs) r (omega arith)))))
    ]

pub iov_size-eq-length :
    (iov : List (List ℕ)) (acc : ℕ)
    → acc + length (concat iov) < 2 ^ 64
    → iov_size acc iov ≡ acc + length (concat iov)
unfolding iov_size
iov_size-eq-length [] acc h = omega arith
iov_size-eq-length (v ∷ vs) acc h =
    let len = length-append v (concat vs) in
    let fits : acc + length v < 2 ^ 64 = omega (arith, len) in
    iov_size-eq-length vs (add_size acc (length v)) (omega (arith, len)) ∙ omega (arith, len)

-- The parts are copied one behind the other.
put_all-Stored :
    (iov : List (List ℕ)) (s : StreamNet) (mem : List ℕ) (off size : ℕ)
    → off + length (concat iov) ≤ length mem
    → length mem < 2 ^ 63
    → length mem ≡ s.sbuf.size
    → Stored s (take off mem ++ concat iov) size (bytes size, put_all s mem off iov)
unfolding put_all
put_all-Stored [] s mem off size h k e = (
  refl,
  sym (append-nil (take off mem)),
  record { small = omega arith; within = omega arith; room = e },
  refl,
)
put_all-Stored (v ∷ vs) s mem off size h k e =
    let len = length-append v (concat vs) in
    let same = length-write_at mem off v (omega (arith, len)) in
    let sum : add_size off (length v) ≡ off + length v = omega (arith, len) in
    let held = take-write_at mem off v (add_size off (length v)) (omega (arith, len)) sum in
    subst
      (λ x.
        Stored s x size (bytes size, put_all s (write_at mem off v) (add_size off (length v)) vs))
      (ap (λ x. x ++ concat vs) held ∙ append_assoc (take off mem) v (concat vs))
      (put_all-Stored vs s (write_at mem off v) (add_size off (length v)) size
        (omega (arith, same, sum, len)) (omega (arith, same)) (same ∙ e))

sendv_buffered-Delivered :
    (s : StreamNet) (mem : List ℕ) (iov : List (List ℕ)) (p : Peer)
    → s.sbuf.buf ≡ some mem
    → IsValid s.sbuf
    → length mem ≡ s.sbuf.size
    → length (concat iov) < 2 ^ 63
    → Delivered s p (concat iov) (sendv_buffered s mem iov p)
unfolding sendv_buffered
sendv_buffered-Delivered s mem iov p b v m small =
    rw (iov_size-eq-length iov 0 (omega arith) ∙ add.zero (length (concat iov)))
      (elim (Bool-cases (ltb s.sbuf.size (length (concat iov)))) [
        | inl big ↦ rw big (refl, inl (refl, ground (arith, big), refl))
        | inr fits ↦
            rw fits
              (elim (Bool-cases (leb (add_size s.sbuf.off (length (concat iov))) s.sbuf.size)) [
                | inl roomy ↦ rw roomy (
                    Stored-at_end s p mem (concat iov)
                      (bytes (length (concat iov)), put_all s mem s.sbuf.off iov) b
                      (put_all-Stored iov s mem s.sbuf.off (length (concat iov))
                        (ground (arith, roomy, fits)) (omega arith) m))
                | inr full ↦ rw full (
                    and_then-Delivered s p (concat iov) _ (send_buffer s mem p) _
                      (λ n.
                        put_all-Stored iov s mem 0 (length (concat iov)) (ground (arith, fits))
                          (omega arith) m)
                      (send_buffer-Sent s p mem b))
              ])
      ])

sendv_through-Delivered :
    (b : Option (List ℕ)) (s : StreamNet) (iov : List (List ℕ)) (p : Peer)
    → s.sbuf.buf ≡ b
    → IsValid s.sbuf
    → length (concat iov) < 2 ^ 63
    → Delivered s p (concat iov) (sendv_through b s iov p)
unfolding sendv_through sendv_raw
sendv_through-Delivered none s iov p e v small =
    unbuffered-Delivered s p (concat iov) (length (concat iov)) (sendv_raw s iov true p) e refl v
      (sendv_loop-Sent p.answers s iov 0 (length (concat iov)) p (omega arith))
sendv_through-Delivered (some mem) s iov p e v small =
    sendv_buffered-Delivered s mem iov p e v (subst (λ o. Room o s.sbuf.size) e v.room) small

-- Sending a vector whose parts have fewer than 2 ^ 63 bytes together, on a valid send buffer, on
-- every result: a success returns the size of all parts, and the wire with what is buffered grows
-- by exactly their bytes in order; a failure leaves the buffer and is either an oversized write,
-- which sends nothing, or a system error after a prefix of the buffered bytes and those of the
-- parts; where no answer comes, the connection is unchanged after such a prefix.
pub sendv-Delivered :
    (s : StreamNet) (iov : List (List ℕ)) (p : Peer)
    → IsValid s.sbuf
    → length (concat iov) < 2 ^ 63
    → Delivered s p (concat iov) (sendv s iov p)
unfolding sendv
sendv-Delivered s iov p v small = sendv_through-Delivered s.sbuf.buf s iov p refl v small
