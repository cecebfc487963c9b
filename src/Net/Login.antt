-- ===== src/Net/Login.antt =====
-- Connecting and logging in: beer/beer_net.c, with the selects of beer/beer_schema.c.
use bee_c.Base.{
  ℕ, zero, suc, ◌+◌, ◌-◌, ◌%◌, ◌^◌, Bool, true, false, not, ◌||◌, Option, none, some, List, [],
  ◌==◌, if◌then◌else◌,
}
use bee_c.Msgpuck.{Msgpuck}
use bee_c.Io.{Error, Peer, StreamNet}
use bee_c.Io.Connect.{Os, io_connect}
use bee_c.Request.{beer_select}
use bee_c.Request.Auth.{beer_auth}
use bee_c.Reply.{Reply, reply_init}
use bee_c.Schema.{Assoc, Ival, Schema, schema_new, add_spaces, add_indexes}
use bee_c.Net.State.{
  Net, Grants, set_error, is_ok, net_init, net_wire, net_read, net_reply, net_flush, net_close,
}

-- `BEER_ER_PASSWORD_MISMATCH`
abbrev pub password_mismatch : ℕ
password_mismatch = 47

abbrev pub is_null : Option (List ℕ) → Bool
is_null none = true
is_null (some bs) = false

-- The data of a reply, NULL being the empty list.
abbrev pub data_of : Reply → List ℕ
data_of r = elim r.data' [ none ↦ [] | some bs ↦ bs ]

-- `fill` is whether memory is found in the functions that fill the cache, `memory` the same for
-- replies and for the two keys of the selects.
module _ {SM IM : Type 0} (sm : Assoc SM ℕ) (im : Assoc IM Ival) (mp : Msgpuck)
    (fill memory : ℕ → Bool) where
  abbrev pub Conn : Type 0
  Conn = Net (Schema SM IM) × Peer

  -- `beer_get_space` and `beer_get_index`: all rows of a system view, by its index 2; the key is
  -- an object with an empty array.
  unfoldable pub get_view : Bool → ℕ → Conn → Option ℕ × Conn
  unfolding beer_select
  get_view granted view x =
      if granted
      then beer_select mp net_wire x view 2 (2 ^ 32 - 1) 0 2 (mp.encode_array 0)
      else (none, x)

  abbrev pub fill_with : (Schema SM IM → List ℕ → Bool × Schema SM IM) → Reply → Conn → Conn
  fill_with add r x = (
    record (x.0) { cache = elim x.0.cache [ none ↦ none | some c ↦ some (add c (data_of r)).1 ] },
    x.1,
  )

  -- How the loop over the replies ends: with the sum of what was loaded and the reply that was put
  -- aside, with an error, or out of fuel.
  pub data Loop : Type 0 where
    ended : ℕ → Option Reply → Conn → Loop
    broken : Conn → Loop
    stuck : Conn → Loop

  unfoldable pub reload_loop : ℕ → ℕ → Option Reply → Conn → Loop
  unfolding net_reply reply_init add_spaces add_indexes
  reload_loop zero sloaded aside x = stuck x
  reload_loop (suc fuel) sloaded aside x =
      let (rc, r, y) = net_reply mp memory (reply_init false) x in
      let spaces =
        reload_loop fuel (sloaded + 1) aside (fill_with (add_spaces sm im mp fill) r y) in
      let indexes =
        reload_loop fuel (sloaded + 2) aside (fill_with (add_indexes sm im mp fill) r y) in
      let later = reload_loop fuel sloaded (some r) y in
      elim rc [
        | none ↦ ended sloaded aside y
        | some code ↦
            if code == 1
            then ended sloaded aside y
            else if r.sync == 127
            then (if is_null r.error then spaces else broken y)
            else if r.sync == 128
            then (if is_null r.error
                then (if sloaded % 2 == 1 then indexes else later)
                else broken y)
            else broken y
      ]

  -- What is done behind the loop; true is the result 0.
  abbrev pub reload_end : Loop → Bool × Conn
  reload_end (ended sloaded none x) = (sloaded == 3, x)
  reload_end (ended sloaded (some r) x) =
      if is_null r.buf
      then (sloaded == 3, x)
      else (sloaded + 2 == 3, fill_with (add_indexes sm im mp fill) r x)
  reload_end (broken x) = (false, x)
  reload_end (stuck x) = (false, x)

  -- `beer_reload_schema`, without its guard. The fuel is one more than the replies to come, as each
  -- round but the last takes one.
  unfoldable pub reload_unguarded : Conn → Bool × Conn
  unfolding get_view reload_loop net_flush
  reload_unguarded x =
      let old = x.0.reqid in
      let a : Conn = (record (x.0) { reqid = 127 }, x.1) in
      let b = (get_view (memory 0) 281 a).1 in
      let c = (get_view (memory 1) 289 b).1 in
      let d : Conn = (record (c.0) { reqid = old % 2 ^ 32 }, c.1) in
      let e = (net_flush d).1 in reload_end (reload_loop (e.0.wrcnt + 1) 0 none e)

  unfoldable pub reload_schema : Conn → Bool × Conn
  unfolding reload_unguarded
  reload_schema x =
      let done = reload_unguarded x in
      if not x.0.io.connected || not (x.0.wrcnt == 0) then (false, x) else done

  module _ (sha1 base64_decode : List ℕ → List ℕ) where
    -- Once the reply to the login was read.
    unfoldable pub login_answered : Option ℕ × Reply × Conn → Bool × Conn
    unfolding reload_schema
    login_answered (none, r, x) = (false, x)
    login_answered (some rc, r, x) =
        let done = (reload_schema x).1 in
        if is_null r.error
        then (true, done)
        else if r.code == password_mismatch
        then (false, (record (x.0) { io = set_error x.0.io Error.elogin }, x.1))
        else (false, x)

    -- `beer_authenticate`
    unfoldable pub authenticate : Conn → Option (List ℕ) → List ℕ → Bool × Conn
    unfolding beer_auth login_answered net_reply net_flush reply_init
    authenticate x login password =
        let a = (beer_auth sha1 base64_decode mp net_wire x x.0.greeting login password).1 in
        let b = (net_flush a).1 in
        if not x.0.io.connected || not (x.0.wrcnt == 0)
        then (false, x)
        else login_answered (net_reply mp memory (reply_init false) b)

    -- The end of `beer_connect`, for the login and the password of the URI.
    unfoldable pub log_in : Option (List ℕ) → Option (List ℕ) → Conn → Bool × Conn
    unfolding authenticate
    log_in none password x = (true, x)
    log_in (some user) none x = (true, x)
    log_in (some user) (some password) x = authenticate x (some user) password

    -- Once the greeting was read.
    unfoldable pub greeted : Option (List ℕ) × Conn → Bool × Conn
    unfolding log_in
    greeted (none, x) = (false, x)
    greeted (some bs, x) =
        let y : Conn = (record (x.0) { greeting = bs }, x.1) in
        let done = log_in x.0.opt.uri.login x.0.opt.uri.password y in
        if is_ok x.0.io.error then done else (false, y)

    -- The connection that `beer_connect` starts from.
    unfoldable pub prepared : Grants → Net (Schema SM IM) → Net (Schema SM IM)
    unfolding net_init net_close schema_new
    prepared g n =
        let m = if n.inited then n else (net_init (schema_new sm im) g n).1 in
        if m.io.connected then net_close m else m

    -- Once the socket was opened.
    unfoldable pub opened : Net (Schema SM IM) → Error × StreamNet → Peer → Bool × Conn
    unfolding greeted net_read
    opened n (e, io') p =
        let y : Conn = (record n { io = set_error io' e }, p) in
        if is_ok e then greeted (net_read y 128) else (false, y)

    -- `beer_connect`
    unfoldable pub net_connect : Grants → Os → Conn → Bool × Conn
    unfolding prepared opened io_connect
    net_connect g os x =
        let n = prepared g x.0 in
        opened n (io_connect n.io n.opt.uri.host_hint n.opt.tmout_connect.0 os) x.1
