-- ===== src/Io/Raw.antt =====
-- The unbuffered sending loop, `beer_io_send_raw`.
use bee_c.Base.{
  ℕ, ◌+◌, ◌^◌, ◌≤◌, ◌<◌, ◌≡◌, refl, sym, ap, ◌∙◌, subst, Bool, true, false, Option, none, some,
}
use bee_c.Base.{
  List, [], ◌∷◌, ◌++◌, append-nil, append_assoc, length, take, drop, ◌==◌, ltb, leb, arith,
}
use bee_c.Base.{
  length-drop, length-append, take-append_le, length-take, take_all, take_add, Bool-cases, ◌⊎◌, inl,
  inr, not, ◌&&◌,
}
use bee_c.Io.{StreamNet, Peer, Answer, taken, failed, Ret, bytes, failure, blocked, stuck}
use bee_c.Io.{esystem, eintr}
use bee_c.Io.{send_loop, send_raw}
use Prim.Native.Nat.{min}

-- The peer has got the first bytes of `data`, behind what it had.
abbrev pub Partly : List ℕ → List ℕ → List ℕ → Type 0
Partly wire data' wire' = (k : ℕ) × (k ≤ length data') × (wire' ≡ wire ++ take k data')

-- What a run of `send_loop` or `sendv_loop` that must send all of `data` leaves behind.
abbrev pub Sent : StreamNet → List ℕ → List ℕ → ℕ → Ret × StreamNet × Peer → Type 0
Sent s wire data' size (bytes n, t, p) = (t ≡ s) × (n ≡ size) × (p.wire ≡ wire ++ data')
Sent s wire data' size (failure, t, p) =
    (t ≡ record s { error = esystem; errno_ = t.errno_ }) × Partly wire data' p.wire
Sent s wire data' size (blocked, t, p) = (t ≡ s) × Partly wire data' p.wire
Sent s wire data' size (stuck, t, p) = ⊥

pub Partly-more :
    (r : ℕ) (wire data' wire' : List ℕ)
    → r ≤ length data'
    → Partly (wire ++ take r data') (drop r data') wire'
    → Partly wire data' wire'
Partly-more r wire data' wire' h (k, hk, e) = (
  r + k,
  omega (arith, length-drop r data'),
  e
      ∙ append_assoc wire (take r data') (take k (drop r data'))
      ∙ ap (λ x. wire ++ x) (sym (take_add r k (r + k) data' refl)),
)

pub Partly-none : (wire data' : List ℕ) → Partly wire data' wire
Partly-none wire data' = (0, omega arith, sym (append-nil wire))

pub Sent-more :
    (s : StreamNet) (r : ℕ) (wire data' : List ℕ) (size : ℕ) (x : Ret × StreamNet × Peer)
    → r ≤ length data'
    → Sent s (wire ++ take r data') (drop r data') size x
    → Sent s wire data' size x
Sent-more s r wire data' size (bytes n, t, p) h (a, b, c) = (
  a,
  b,
  c
      ∙ append_assoc wire (take r data') (drop r data')
      ∙ ap (λ x. wire ++ x) (bee_c.Base.take-append-drop r data'),
)
Sent-more s r wire data' size (failure, t, p) h (a, b) = (a, Partly-more r wire data' p.wire h b)
Sent-more s r wire data' size (blocked, t, p) h (a, b) = (a, Partly-more r wire data' p.wire h b)
Sent-more s r wire data' size (stuck, t, p) h x = x

pub send_loop-Sent :
    (later : List Answer) (s : StreamNet) (rest : List ℕ) (off size : ℕ) (p : Peer)
    → off + length rest ≡ size
    → Sent s p.wire rest size (send_loop s rest true off size later p)
unfolding send_loop
send_loop-Sent [] s rest off size p e = (refl, Partly-none p.wire rest)
send_loop-Sent (failed c ∷ later) s rest off size p e =
    elim (Bool-cases (not s.sbuf.tx && c == eintr)) [
      | inl y ↦ rw y (send_loop-Sent later s rest off size (record p { errno = c }) e)
      | inr n ↦ rw n (refl, Partly-none p.wire rest)
    ]
send_loop-Sent (taken k ∷ later) s rest off size p e =
    elim (Bool-cases (min k (length rest) == 0)) [
      | inl y ↦ rw y (refl, Partly-none p.wire rest)
      | inr n ↦ rw n (elim (Bool-cases (off + min k (length rest) == size)) [
        | inl d ↦ rw d (
          refl,
          ground (arith, d),
          ap (λ x. p.wire ++ x) (take_all (min k (length rest)) rest (ground (arith, d))),
        )
        | inr m ↦ rw m (
            Sent-more s (min k (length rest)) p.wire rest size _ (omega arith) (
              send_loop-Sent later s (drop (min k (length rest)) rest) (off + min k (length rest))
                size (record p { wire = p.wire ++ take (min k (length rest)) rest })
                (omega (arith, length-drop (min k (length rest)) rest))))
      ])
    ]

pub send_raw-Sent :
    (s : StreamNet) (data' : List ℕ) (p : Peer)
    → Sent s p.wire data' (length data') (send_raw s data' true p)
unfolding send_raw
send_raw-Sent s data' p = send_loop-Sent p.answers s data' 0 (length data') p (omega arith)
