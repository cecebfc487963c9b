-- ===== src/Io/Recv.antt =====
-- The receiving half of beer/beer_io.c.
use bee_c.Base.{ℕ, zero, suc, ◌-◌, Bool, true, false, ◌&&◌, not, Option, none, some}
use bee_c.Base.{List, [], ◌∷◌, ◌++◌, length, take, drop, leb, ◌==◌, if◌then◌else◌}
use bee_c.Base.Memory.{write_at}
use bee_c.Io.State.{StreamNet, Peer, Answer, taken, failed, Ret, bytes, failure, blocked, stuck}
use bee_c.Io.State.{eintr, add_size, esystem}
use Prim.Native.Nat.{min}

-- `got` is what the loop has stored in the caller's buffer. A `recv` offers the room that is left.
unfoldable pub recv_loop :
    StreamNet → List ℕ → Bool → ℕ → List Answer → Peer → Ret × List ℕ × StreamNet × Peer
recv_loop s got all size [] p = (blocked, got, s, record p { answers = [] })
recv_loop s got all size (failed e ∷ later) p =
    if not s.rbuf.tx && e == eintr
    then recv_loop s got all size later (record p { errno = e })
    else (
      failure,
      got,
      record s { error = esystem; errno_ = e },
      record p { answers = later; errno = e },
    )
recv_loop s got all size (taken k ∷ later) p =
    let part = take (min k (size - length got)) p.incoming in
    let got' = got ++ part in
    let p' = record p { incoming = drop (length part) p.incoming } in
    let more = recv_loop s got' all size later p' in
    if length part == 0
    then (
      failure,
      got,
      record s { error = esystem; errno_ = p.errno },
      record p { answers = later },
    )
    else if not (length got' == size) && all
    then more
    else (bytes (length got'), got', s, record p' { answers = later })

unfoldable pub recv_raw : StreamNet → ℕ → Bool → Peer → Ret × List ℕ × StreamNet × Peer
recv_raw s size all p = recv_loop s [] all size p.answers p

abbrev pub set_rbuf : StreamNet → List ℕ → ℕ → ℕ → StreamNet
set_rbuf s mem off top = record s {
  rbuf = record (s.rbuf) { buf = some mem; off = off; top = top };
}

-- The end of one round of the loop, after `beer_io_recv_raw`: `got` holds the bytes so far, `rv`
-- are still wanted, and `again` is the next round.
unfoldable pub recv_refilled :
    List ℕ
    → List ℕ
    → ℕ
    → ℕ
    → (StreamNet → List ℕ → List ℕ → Peer → Ret × List ℕ × StreamNet × Peer)
    → Ret × List ℕ × StreamNet × Peer
    → Ret × List ℕ × StreamNet × Peer
recv_refilled mem got size rv again (bytes top, part, s, p) =
    let mem' = write_at mem 0 part in
    let next = again (set_rbuf s mem' 0 top) mem' got p in
    if top == 0
    then (failure, got, record s { errno_ = p.errno; error = esystem }, p)
    else if leb rv top
    then (bytes size, got ++ take rv mem', set_rbuf s mem' rv top, p)
    else next
recv_refilled mem got size rv again (failure, part, s, p) =
    (failure, got, record s { errno_ = p.errno; error = esystem }, p)
recv_refilled mem got size rv again (blocked, part, s, p) = (blocked, got, s, p)
recv_refilled mem got size rv again (stuck, part, s, p) = (stuck, got, s, p)

-- `while (1)` of `beer_io_recv`, with `left` bytes wanted; `mem` is `rbuf.buf`.
unfoldable pub recv_rounds :
    ℕ → StreamNet → List ℕ → List ℕ → ℕ → ℕ → Peer → Ret × List ℕ × StreamNet × Peer
unfolding recv_refilled
recv_rounds zero s mem got size left p = (stuck, got, s, p)
recv_rounds (suc fuel) s mem got size left p =
    let lv = s.rbuf.top - s.rbuf.off in
    let s0 = set_rbuf s mem 0 s.rbuf.top in
    let again =
      λ (t : StreamNet) (m g : List ℕ) (q : Peer). recv_rounds fuel t m g size (left - lv) q in
    if leb (add_size s.rbuf.off left) s.rbuf.top
    then (
      bytes size,
      got ++ take left (drop s.rbuf.off mem),
      set_rbuf s mem (add_size s.rbuf.off left) s.rbuf.top,
      p,
    )
    else recv_refilled mem (got ++ take lv (drop s.rbuf.off mem)) size (left - lv) again
        (recv_raw s0 s.rbuf.size false p)

-- `beer_io_recv`, by the pointer `rbuf.buf`. Each round takes an answer at least, so one round more
-- than there are answers is enough.
unfoldable pub recv_through :
    Option (List ℕ) → StreamNet → ℕ → Peer → Ret × List ℕ × StreamNet × Peer
unfolding recv_rounds
recv_through none s size p = recv_raw s size true p
recv_through (some mem) s size p = recv_rounds (suc (length p.answers)) s mem [] size size p

unfoldable pub recv : StreamNet → ℕ → Peer → Ret × List ℕ × StreamNet × Peer
unfolding recv_through
recv s size p = recv_through s.rbuf.buf s size p
