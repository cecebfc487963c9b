-- ===== src/Io/Patience.antt =====
-- The wait for a connection that is under way: what `beer_io_connect` of beer/beer_io.c waits through.
use bee_c.Base.{
  ℕ, ◌+◌, ◌*◌, ◌<◌, ◌≡◌, refl, ap, subst, Bool, Bool-cases, inl, inr, true, false, some, List, [],
  ◌∷◌, ◌++◌, leb, ◌⊎◌, if◌then◌else◌, arith,
}
use bee_c.Io.State.{StreamNet, Error, eok, efail, esystem, eresolve, etmout}
use bee_c.Io.Buffer.{io_close}
use bee_c.Io.Connect.{
  Sys, value, failed, Select, ready, expired, interrupted, broken, Hint, by_name, ipv4, ipv6,
  local_path, unknown, Os, einprogress, io_nonblock, wait_connected, when_ok, accepted, in_progress,
  dialed, io_connect_do, io_connect_tcp, io_setopts, connect_by, connect_end, with_socket,
  io_connect,
}

abbrev is_ok : Error → Bool
is_ok eok = true
is_ok _ = false

abbrev is_success : Error × StreamNet → Bool
is_success x = is_ok x.0

abbrev Success : Error × StreamNet → Type 0
Success x = is_success x ≡ true

-- A success goes on, and everything else is the end.
abbrev Settles : Error × StreamNet → Type 0
Settles x =
    ((u : StreamNet) × (x ≡ (eok, u)))
    ⊎ (((f : StreamNet → Error × StreamNet) → when_ok x f ≡ x)
        × (is_success x ≡ false)
        × (is_success (connect_end x) ≡ false))

settles : (x : Error × StreamNet) → Settles x
unfolding io_close
settles (eok, s) = inl (s, refl)
settles (efail, s) = inr (λ f. refl, refl, refl)
settles (Error.ememory, s) = inr (λ f. refl, refl, refl)
settles (esystem, s) = inr (λ f. refl, refl, refl)
settles (Error.ebig, s) = inr (λ f. refl, refl, refl)
settles (Error.esize, s) = inr (λ f. refl, refl, refl)
settles (eresolve, s) = inr (λ f. refl, refl, refl)
settles (etmout, s) = inr (λ f. refl, refl, refl)
settles (Error.ebadval, s) = inr (λ f. refl, refl, refl)
settles (Error.elogin, s) = inr (λ f. refl, refl, refl)
settles (Error.elast, s) = inr (λ f. refl, refl, refl)

when_ok-Success :
    (x : Error × StreamNet) (f : StreamNet → Error × StreamNet)
    → Success (when_ok x f)
    → (u : StreamNet) × (x ≡ (eok, u)) × Success (f u)
when_ok-Success x f ok = elim (settles x) [
  | inl (u, e) ↦ (u, e, subst (λ y. Success (when_ok y f)) e ok)
  | inr (same, bad, closed) ↦ absurd (cc (ok, bad, ap is_success (same f)))
]

connect_end-Success :
    (x : Error × StreamNet) → Success (connect_end x) → (u : StreamNet) × (x ≡ (eok, u))
connect_end-Success x ok = elim (settles x) [
  | inl found ↦ found
  | inr (same, bad, closed) ↦ absurd (cc (ok, closed))
]

-- Signals, with the times of day that are read then.
abbrev pub signals : List ℕ → List Select
signals [] = []
signals (now ∷ times) = interrupted (value now) ∷ signals times

abbrev pub AllAfter : ℕ → List ℕ → Type 0
AllAfter deadline [] = Unit {0}
AllAfter deadline (now ∷ times) = (deadline < now) × AllAfter deadline times

-- Signals after a time only, and then the socket being ready.
abbrev pub WaitedFor : ℕ → List Select → Type 0
WaitedFor deadline selects =
    (times : List ℕ) × (rest : List Select) × (selects ≡ signals times ++ (ready ∷ rest))
    × AllAfter deadline times

wait_connected-WaitedFor :
    (s : StreamNet) (tmout start : ℕ) (selects : List Select)
    → Success (wait_connected s tmout start selects)
    → WaitedFor (start + tmout) selects
unfolding wait_connected
wait_connected-WaitedFor s tmout start [] ok = absurd (cc ok)
wait_connected-WaitedFor s tmout start (ready ∷ rest) ok = ([], rest, refl, tt)
wait_connected-WaitedFor s tmout start (expired ∷ rest) ok = absurd (cc ok)
wait_connected-WaitedFor s tmout start (broken e ∷ rest) ok = absurd (cc ok)
wait_connected-WaitedFor s tmout start (interrupted (failed e) ∷ rest) ok = absurd (cc ok)
wait_connected-WaitedFor s tmout start (interrupted (value now) ∷ rest) ok =
    elim (Bool-cases (leb now (start + tmout))) [
      | inl y ↦
          let early : is_success
                (if leb now (start + tmout) then (etmout, s) else wait_connected s tmout start rest)
              ≡ false =
            rw y refl in
          absurd (cc (ok, early))
      | inr n ↦
          let later : Success (wait_connected s tmout start rest) =
            subst (λ b. Success (if b then (etmout, s) else wait_connected s tmout start rest)) n
              ok in
          let (times, rest', e, after) = wait_connected-WaitedFor s tmout start rest later in
          (now ∷ times, rest', ap (λ l. interrupted (value now) ∷ l) e, (ground arith, after))
    ]

dialed-WaitedFor :
    (s : StreamNet) (sec : ℕ) (os : Os) (start : ℕ)
    → os.start ≡ value start
    → Success (dialed sec os s (failed einprogress))
    → WaitedFor (start + sec * 1000000) os.selects
unfolding dialed in_progress
dialed-WaitedFor s sec os start started ok =
    let ok' : Success (when_ok (wait_connected s (sec * 1000000) start os.selects) (accepted os)) =
      subst (λ x. Success (in_progress sec os s x)) started ok in
    let (u, waited, ok'') =
      when_ok-Success (wait_connected s (sec * 1000000) start os.selects) (accepted os) ok' in
    wait_connected-WaitedFor s (sec * 1000000) start os.selects (ap is_success waited)

do-WaitedFor :
    (s : StreamNet) (sec : ℕ) (os : Os) (start : ℕ)
    → os.connects ≡ failed einprogress
    → os.start ≡ value start
    → Success (io_connect_do s sec os)
    → WaitedFor (start + sec * 1000000) os.selects
unfolding io_connect_do
do-WaitedFor s sec os start pending started ok =
    let (t, nonblocking, ok') =
      when_ok-Success (io_nonblock s os.get_flags os.set_flags) (λ t. dialed sec os t os.connects)
        ok in
    dialed-WaitedFor t sec os start started (subst (λ x. Success (dialed sec os t x)) pending ok')

tcp-WaitedFor :
    (s : StreamNet) (sec : ℕ) (os : Os) (start : ℕ)
    → os.connects ≡ failed einprogress
    → os.start ≡ value start
    → Success (io_connect_tcp s sec os)
    → WaitedFor (start + sec * 1000000) os.selects
unfolding io_connect_tcp
tcp-WaitedFor s sec os start pending started ok = elim (Bool-cases os.resolves) [
  | inl y ↦
      do-WaitedFor s sec os start pending started
        (subst (λ b. Success (if b then io_connect_do s sec os else (eresolve, s))) y ok)
  | inr n ↦
      absurd (cc (subst (λ b. Success (if b then io_connect_do s sec os else (eresolve, s))) n ok))
]

-- The hosts that are connected to over TCP.
abbrev pub is_tcp : Hint → Bool
is_tcp by_name = true
is_tcp ipv4 = true
is_tcp ipv6 = true
is_tcp local_path = false
is_tcp unknown = false

connect_by-WaitedFor :
    (hint : Hint) (s : StreamNet) (sec : ℕ) (os : Os) (start : ℕ)
    → is_tcp hint ≡ true
    → os.connects ≡ failed einprogress
    → os.start ≡ value start
    → Success (connect_by s hint sec os)
    → WaitedFor (start + sec * 1000000) os.selects
unfolding connect_by
connect_by-WaitedFor by_name s sec os start tcp = tcp-WaitedFor s sec os start
connect_by-WaitedFor ipv4 s sec os start tcp = tcp-WaitedFor s sec os start
connect_by-WaitedFor ipv6 s sec os start tcp = tcp-WaitedFor s sec os start
connect_by-WaitedFor local_path s sec os start tcp = absurd (cc tcp)
connect_by-WaitedFor unknown s sec os start tcp = absurd (cc tcp)

with_socket-WaitedFor :
    (x : Sys) (hint : Hint) (s : StreamNet) (sec : ℕ) (os : Os) (start : ℕ)
    → is_tcp hint ≡ true
    → os.connects ≡ failed einprogress
    → os.start ≡ value start
    → Success (with_socket s hint sec os x)
    → WaitedFor (start + sec * 1000000) os.selects
unfolding with_socket
with_socket-WaitedFor (failed e) hint s sec os start tcp pending started ok = absurd (cc ok)
with_socket-WaitedFor (value fd) hint s sec os start tcp pending started ok =
    let s' : StreamNet = record s { fd = some fd } in
    let dial = λ (t : StreamNet). connect_by t hint sec os in
    let (u, up) = connect_end-Success (when_ok (io_setopts s' hint os) dial) ok in
    let (t, set, ok') = when_ok-Success (io_setopts s' hint os) dial (ap is_success up) in
    connect_by-WaitedFor hint t sec os start tcp pending started ok'

-- Over TCP, to a host given by its name or by an address of either kind, a connect that is under
-- way and then succeeds was interrupted by signals, if at all, only after its whole timeout, in
-- whole seconds, was up, before its socket was ready: no signal before that is survived, whatever
-- the system answers to all other calls.
pub io_connect-WaitedFor :
    (s : StreamNet) (hint : Hint) (sec : ℕ) (os : Os) (start : ℕ)
    → is_tcp hint ≡ true
    → os.connects ≡ failed einprogress
    → os.start ≡ value start
    → (io_connect s hint sec os).0 ≡ eok
    → WaitedFor (start + sec * 1000000) os.selects
unfolding io_connect
io_connect-WaitedFor s hint sec os start tcp pending started ok =
    with_socket-WaitedFor os.socket hint s sec os start tcp pending started (ap is_ok ok)
