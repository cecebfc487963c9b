-- ===== src/Io/Connect.antt =====
-- Connecting: beer/beer_io.c. What the system calls answer is given beforehand; a call that is made
-- twice has two answers.
use bee_c.Base.{
  ℕ, ◌+◌, ◌*◌, ◌≡◌, refl, Bool, true, false, none, some, List, [], ◌∷◌, leb, ◌==◌, if◌then◌else◌,
}
use bee_c.Io.State.{StreamNet, Error, eok, efail, esystem, eresolve, etmout}
use bee_c.Io.Buffer.{io_close}

-- A value, or -1 with errno.
pub data Sys : Type 0 where
  value : ℕ → Sys
  failed : ℕ → Sys

-- What `select` reports: the socket, the end of the time, a signal with the time of day that is read
-- then, or another error.
pub data Select : Type 0 where
  ready expired : Select
  interrupted : Sys → Select
  broken : ℕ → Select

-- `uri->host_hint`.
pub data Hint : Type 0 where
  by_name ipv4 ipv6 local_path unknown : Hint

-- Times are in microseconds. `selects` ends where the time is up.
pub record Os : Type 0 where
  pub socket : Sys
  pub nodelay : Sys
  pub sndtimeo : Sys
  pub rcvtimeo : Sys
  pub resolves : Bool
  pub get_flags : Sys
  pub set_flags : Sys
  pub connects : Sys
  pub start : Sys
  pub selects : List Select
  pub so_error : Sys
  pub get_flags_again : Sys
  pub set_flags_again : Sys

abbrev pub einprogress : ℕ
einprogress = 115

abbrev pub system_error : StreamNet → ℕ → Error × StreamNet
system_error s e = (esystem, record s { errno_ = e })

-- A call whose failure is the end.
abbrev pub checked : Sys → StreamNet → Error × StreamNet → Error × StreamNet
checked (value n) s later = later
checked (failed e) s later = system_error s e

unfoldable pub io_nonblock : StreamNet → Sys → Sys → Error × StreamNet
io_nonblock s get set = checked get s (checked set s (eok, s))

-- The loop over `select`.
unfoldable pub wait_connected : StreamNet → ℕ → ℕ → List Select → Error × StreamNet
wait_connected s tmout start [] = (etmout, s)
wait_connected s tmout start (ready ∷ rest) = (eok, s)
wait_connected s tmout start (expired ∷ rest) = (etmout, s)
wait_connected s tmout start (interrupted (failed e) ∷ rest) = system_error s e
wait_connected s tmout start (interrupted (value now) ∷ rest) =
    let later = wait_connected s tmout start rest in
    if leb now (start + tmout) then (etmout, s) else later
wait_connected s tmout start (broken e ∷ rest) = system_error s e

-- A step that goes on where the result is that of a success.
abbrev pub when_ok : Error × StreamNet → (StreamNet → Error × StreamNet) → Error × StreamNet
when_ok (eok, s) f = f s
when_ok (e, s) f = (e, s)

-- The status of the socket once it is ready.
abbrev pub socket_status : Sys → StreamNet → Error × StreamNet
socket_status (failed e) s = system_error s e
socket_status (value n) s = if n == 0 then (eok, s) else system_error s n

-- Once the socket is ready.
abbrev pub accepted : Os → StreamNet → Error × StreamNet
accepted os s =
    when_ok (socket_status os.so_error s) (λ v. io_nonblock v os.get_flags_again os.set_flags_again)

-- `sec` is the seconds of the timeout; the time of day is read before the wait.
unfoldable pub in_progress : ℕ → Os → StreamNet → Sys → Error × StreamNet
unfolding wait_connected io_nonblock
in_progress sec os s (failed e) = system_error s e
in_progress sec os s (value now) =
    when_ok (wait_connected s (sec * 1000000) now os.selects) (accepted os)

-- By the answer of `connect`.
unfoldable pub dialed : ℕ → Os → StreamNet → Sys → Error × StreamNet
unfolding in_progress
dialed sec os s (value n) = (eok, s)
dialed sec os s (failed e) =
    if e == einprogress then in_progress sec os s os.start else system_error s e

unfoldable pub io_connect_do : StreamNet → ℕ → Os → Error × StreamNet
unfolding io_nonblock dialed
io_connect_do s sec os =
    when_ok (io_nonblock s os.get_flags os.set_flags) (λ t. dialed sec os t os.connects)

unfoldable pub io_connect_tcp : StreamNet → ℕ → Os → Error × StreamNet
unfolding io_connect_do
io_connect_tcp s sec os = if os.resolves then io_connect_do s sec os else (eresolve, s)

unfoldable pub io_connect_unix : StreamNet → Os → Error × StreamNet
io_connect_unix s os = checked os.connects s (eok, s)

-- `beer_io_setopts`; the sizes of the buffers of the kernel, which are tried first, never fail.
unfoldable pub io_setopts : StreamNet → Hint → Os → Error × StreamNet
io_setopts s local_path os = checked os.sndtimeo s (checked os.rcvtimeo s (eok, s))
io_setopts s hint os = checked os.nodelay s (checked os.sndtimeo s (checked os.rcvtimeo s (eok, s)))

-- The cases of `beer_io_connect` on the host.
unfoldable pub connect_by : StreamNet → Hint → ℕ → Os → Error × StreamNet
unfolding io_connect_tcp io_connect_unix
connect_by s local_path sec os = io_connect_unix s os
connect_by s unknown sec os = (efail, s)
connect_by s hint sec os = io_connect_tcp s sec os

-- The end of `beer_io_connect`: the mark, or the close.
abbrev pub connect_end : Error × StreamNet → Error × StreamNet
connect_end (eok, s) = (eok, record s { connected = true })
connect_end (e, s) = (e, io_close s)

-- Once `socket` answered.
unfoldable pub with_socket : StreamNet → Hint → ℕ → Os → Sys → Error × StreamNet
unfolding io_setopts connect_by io_close
with_socket s hint sec os (failed e) = (esystem, record s { fd = none; errno_ = e })
with_socket s hint sec os (value fd) =
    connect_end
      (when_ok (io_setopts (record s { fd = some fd }) hint os) (λ t. connect_by t hint sec os))

unfoldable pub io_connect : StreamNet → Hint → ℕ → Os → Error × StreamNet
unfolding with_socket
io_connect s hint sec os = with_socket s hint sec os os.socket

-- A connection that is up, or one that is closed.
abbrev pub Settled : Error × StreamNet → Type 0
Settled (eok, t) = t.connected ≡ true
Settled (e, t) = t.connected ≡ false

connect_end-Settled : (x : Error × StreamNet) → Settled (connect_end x)
unfolding io_close
connect_end-Settled (eok, s) = refl
connect_end-Settled (efail, s) = refl
connect_end-Settled (Error.ememory, s) = refl
connect_end-Settled (esystem, s) = refl
connect_end-Settled (Error.ebig, s) = refl
connect_end-Settled (Error.esize, s) = refl
connect_end-Settled (eresolve, s) = refl
connect_end-Settled (etmout, s) = refl
connect_end-Settled (Error.ebadval, s) = refl
connect_end-Settled (Error.elogin, s) = refl
connect_end-Settled (Error.elast, s) = refl

with_socket-Settled :
    (s : StreamNet) (hint : Hint) (sec : ℕ) (os : Os) (x : Sys)
    → s.connected ≡ false
    → Settled (with_socket s hint sec os x)
unfolding with_socket
with_socket-Settled s hint sec os (failed e) closed = closed
with_socket-Settled s hint sec os (value fd) closed = connect_end-Settled _

-- From a connection that is closed, connecting ends, whatever the system answers, with a connection
-- that is up exactly where the result is that of a success.
pub io_connect-Settled :
    (s : StreamNet) (hint : Hint) (sec : ℕ) (os : Os)
    → s.connected ≡ false
    → Settled (io_connect s hint sec os)
unfolding io_connect
io_connect-Settled s hint sec os closed = with_socket-Settled s hint sec os os.socket closed
