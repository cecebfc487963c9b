-- ===== src/Io/Send.antt =====
-- The sending half of beer/beer_io.c.
use bee_c.Base.{ℕ, ◌+◌, ◌-◌, Bool, true, ◌&&◌, not, Option, none, some}
use bee_c.Base.{List, [], ◌∷◌, ◌++◌, length, take, drop, concat, ltb, leb, ◌==◌, if◌then◌else◌}
use bee_c.Base.Memory.{write_at}
use bee_c.Io.State.{StreamNet, Peer, Answer, taken, failed, Ret, bytes, failure, blocked, stuck}
use bee_c.Io.State.{eintr, add_size, esystem, ebig}
use Prim.Native.Nat.{min}

-- One round for each answer: an interrupted `send` is called again, a callback is not.
unfoldable pub send_loop :
    StreamNet → List ℕ → Bool → ℕ → ℕ → List Answer → Peer → Ret × StreamNet × Peer
send_loop s rest all off size [] p = (blocked, s, record p { answers = [] })
send_loop s rest all off size (failed e ∷ later) p =
    if not s.sbuf.tx && e == eintr
    then send_loop s rest all off size later (record p { errno = e })
    else (
      failure,
      record s { error = esystem; errno_ = e },
      record p { answers = later; errno = e },
    )
send_loop s rest all off size (taken k ∷ later) p =
    let r = min k (length rest) in
    let p' = record p { wire = p.wire ++ take r rest } in
    let more = send_loop s (drop r rest) all (off + r) size later p' in
    if r == 0
    then (failure, record s { error = esystem; errno_ = p.errno }, record p { answers = later })
    else if not (off + r == size) && all
    then more
    else (bytes (off + r), s, record p' { answers = later })

unfoldable pub send_raw : StreamNet → List ℕ → Bool → Peer → Ret × StreamNet × Peer
send_raw s buf all p = send_loop s buf all 0 (length buf) p.answers p

-- The inner loop of `beer_io_sendv_raw`: drop the first r bytes of the vector.
unfoldable pub advance : List (List ℕ) → ℕ → List (List ℕ)
advance [] r = []
advance (v ∷ vs) r =
    let rest = advance vs (r - length v) in if ltb r (length v) then drop r v ∷ vs else rest

abbrev pub iov_max : ℕ
iov_max = 1024

-- A callback is offered at most IOV_MAX parts.
abbrev pub offered : Bool → List (List ℕ) → List (List ℕ)
offered txv iov = if txv then take iov_max iov else iov

unfoldable pub sendv_loop :
    StreamNet → List (List ℕ) → Bool → ℕ → List Answer → Peer → Ret × StreamNet × Peer
sendv_loop s [] all total later p = (bytes total, s, record p { answers = later })
sendv_loop s (v ∷ vs) all total [] p = (blocked, s, record p { answers = [] })
sendv_loop s (v ∷ vs) all total (failed e ∷ later) p =
    if not s.sbuf.txv && e == eintr
    then sendv_loop s (v ∷ vs) all total later (record p { errno = e })
    else (
      failure,
      record s { error = esystem; errno_ = e },
      record p { answers = later; errno = e },
    )
sendv_loop s (v ∷ vs) all total (taken k ∷ later) p =
    let data' = concat (offered s.sbuf.txv (v ∷ vs)) in
    let r = min k (length data') in
    let p' = record p { wire = p.wire ++ take r data' } in
    let more = sendv_loop s (advance (v ∷ vs) r) all (total + r) later p' in
    if r == 0
    then (failure, record s { error = esystem; errno_ = p.errno }, record p { answers = later })
    else if all
    then more
    else (bytes (total + r), s, record p' { answers = later })

unfoldable pub sendv_raw : StreamNet → List (List ℕ) → Bool → Peer → Ret × StreamNet × Peer
sendv_raw s iov all p = sendv_loop s iov all 0 p.answers p

-- The bytes behind a buffer pointer; behind NULL there are none.
abbrev pub memory : Option (List ℕ) → List ℕ
memory none = []
memory (some mem) = mem

-- `memcpy(sbuf.buf + off, data, size)` and the new `sbuf.off`.
abbrev pub put : StreamNet → List ℕ → ℕ → List ℕ → StreamNet
put s mem off data' = record s {
  sbuf = record (s.sbuf) { buf = some (write_at mem off data'); off = add_size off (length data') };
}

-- What follows `beer_io_send_raw` of the whole buffer: a store on success, else its result.
unfoldable pub and_then :
    Ret × StreamNet × Peer → (ℕ → StreamNet → Ret × StreamNet) → Ret × StreamNet × Peer
and_then (bytes n, s, p) store = let (r, s') = store n s in (r, s', p)
and_then (failure, s, p) store = (failure, s, p)
and_then (blocked, s, p) store = (blocked, s, p)
and_then (stuck, s, p) store = (stuck, s, p)

abbrev pub send_buffer : StreamNet → List ℕ → Peer → Ret × StreamNet × Peer
send_buffer s mem p = send_raw s (take s.sbuf.off mem) true p

abbrev pub emptied : ℕ → StreamNet → Ret × StreamNet
emptied n t = (bytes n, record t { sbuf = record (t.sbuf) { off = 0 } })

unfoldable pub flush : StreamNet → Peer → Ret × StreamNet × Peer
unfolding and_then
flush s p =
    if s.sbuf.off == 0
    then (bytes 0, s, p)
    else and_then (send_buffer s (memory s.sbuf.buf) p) emptied

-- `beer_io_send` with a buffer.
unfoldable pub send_buffered : StreamNet → List ℕ → List ℕ → Peer → Ret × StreamNet × Peer
unfolding and_then
send_buffered s mem data' p =
    if ltb s.sbuf.size (length data')
    then (failure, record s { error = ebig }, p)
    else if leb (add_size s.sbuf.off (length data')) s.sbuf.size
    then (bytes (length data'), put s mem s.sbuf.off data', p)
    else and_then (send_buffer s mem p) (λ n t. (bytes (length data'), put t mem 0 data'))

-- `beer_io_send`, by the pointer `sbuf.buf`.
unfoldable pub send_through : Option (List ℕ) → StreamNet → List ℕ → Peer → Ret × StreamNet × Peer
unfolding send_buffered
send_through none s data' p = send_raw s data' true p
send_through (some mem) s data' p = send_buffered s mem data' p

unfoldable pub send : StreamNet → List ℕ → Peer → Ret × StreamNet × Peer
unfolding send_through
send s data' p = send_through s.sbuf.buf s data' p

-- The loop of `beer_io_sendv_put`.
unfoldable pub put_all : StreamNet → List ℕ → ℕ → List (List ℕ) → StreamNet
put_all s mem off [] = record s { sbuf = record (s.sbuf) { buf = some mem; off = off } }
put_all s mem off (v ∷ vs) = put_all s (write_at mem off v) (add_size off (length v)) vs

-- The sum of the lengths, later `size_t`.
unfoldable pub iov_size : ℕ → List (List ℕ) → ℕ
iov_size size [] = size
iov_size size (v ∷ vs) = iov_size (add_size size (length v)) vs

-- `beer_io_sendv` with a buffer.
unfoldable pub sendv_buffered : StreamNet → List ℕ → List (List ℕ) → Peer → Ret × StreamNet × Peer
unfolding and_then put_all iov_size
sendv_buffered s mem iov p =
    let size = iov_size 0 iov in
    if ltb s.sbuf.size size
    then (failure, record s { error = ebig }, p)
    else if leb (add_size s.sbuf.off size) s.sbuf.size
    then (bytes size, put_all s mem s.sbuf.off iov, p)
    else and_then (send_buffer s mem p) (λ n t. (bytes size, put_all t mem 0 iov))

-- `beer_io_sendv`, by the pointer `sbuf.buf`.
unfoldable pub sendv_through :
    Option (List ℕ) → StreamNet → List (List ℕ) → Peer → Ret × StreamNet × Peer
unfolding sendv_buffered
sendv_through none s iov p = sendv_raw s iov true p
sendv_through (some mem) s iov p = sendv_buffered s mem iov p

unfoldable pub sendv : StreamNet → List (List ℕ) → Peer → Ret × StreamNet × Peer
unfolding sendv_through
sendv s iov p = sendv_through s.sbuf.buf s iov p
