-- ===== src/Net/Tests.antt =====
-- A connection over a small codec.
use bee_c.Base.{ℕ, ◌≡◌, refl, true, false, none, some, List, [], ◌∷◌, arith}
use bee_c.Msgpuck.Tagged.{tagged}
use bee_c.Io.{Iob, Peer, taken, failed, eok, sendv}
use bee_c.Io.{send_raw, send_loop, sendv_raw, sendv_loop, and_then}
use bee_c.Io.Connect.{Hint}
use bee_c.Reply.{reply_init}
use bee_c.Request.{packaged}
use bee_c.Request.Auth.{auth_raw, beer_auth}
use bee_c.Schema.{schema_new}
use bee_c.Schema.{Ival, Schema}
use bee_c.Schema.Listed.{Puts, listed}
use bee_c.Net.{Net, net_reply, net_flush, net_wire, net_writev}
use bee_c.Net.Options.{opt_init}
use bee_c.Net.Login.{authenticate, reload_schema, reload_loop}
use bee_c.Net.Replies.{reads, writes, writes-drained, Ends, reload_loop-Ends}
use bee_c.Net.Unsent.{authenticate-unsent}

abbrev unbuffered : Iob
unbuffered = record { buf = none; off = 0; top = 0; size = 0; tx = false; txv = false }

abbrev Cached : Type 0
Cached = Net (Schema (Puts ℕ) (Puts Ival))

-- A connection that is up and waits for no reply.
abbrev idle : Cached
idle = record {
  wrcnt = 0;
  reqid = 5;
  inited = true;
  opt = (opt_init (record { host_hint = Hint.by_name; login = none; password = none }) true).1;
  greeting = [];
  cache = some (schema_new (listed ℕ) (listed Ival));
  io = record {
    connected = true;
    fd = some 3;
    sbuf = unbuffered;
    rbuf = unbuffered;
    error = eok;
    errno_ = 0;
  };
}

-- A peer that takes two writes.
abbrev writable : Peer
writable = record {
  answers = taken 3 ∷ taken 3 ∷ failed 32 ∷ [];
  wire = [];
  incoming = [];
  errno = 0;
}

-- A peer that takes nothing.
abbrev gone : Peer
gone = record { answers = failed 32 ∷ []; wire = []; incoming = []; errno = 0 }

abbrev three : List (List ℕ)
three = (1 ∷ 2 ∷ 3 ∷ []) ∷ (4 ∷ 5 ∷ 6 ∷ []) ∷ (7 ∷ []) ∷ []

writes-drained_example :
    let (n, y) = writes tagged (λ k. true) three (idle, writable) in
    (y.0.wrcnt ≡ n)
    × (net_reply tagged (λ k. true) (reply_init false) (reads tagged (λ k. true) n y)
        ≡ (some 1, reply_init false, reads tagged (λ k. true) n y))
unfolding writes send_raw send_loop
writes-drained_example =
    writes-drained tagged (λ k. true) three (reply_init false) (idle, writable) refl (omega arith)

reload_loop-Ends_example :
    Ends
      (listed ℕ)
      (listed Ival)
      tagged
      (λ k. true)
      (λ k. true)
      (reload_loop
        (listed ℕ)
        (listed Ival)
        tagged
        (λ k. true)
        (λ k. true)
        3
        0
        none
        (record idle { wrcnt = 2 }, writable))
reload_loop-Ends_example =
    reload_loop-Ends (listed ℕ) (listed Ival) tagged (λ k. true) (λ k. true) 3 0 none
      (record idle { wrcnt = 2 }, writable) (omega arith)

abbrev digest : List ℕ → List ℕ
digest b = b

-- The result over a peer that takes nothing.
authenticate-unsent_example :
    authenticate
      (listed ℕ)
      (listed Ival)
      tagged
      (λ k. true)
      (λ k. true)
      digest
      digest
      (idle, gone)
      (some (117 ∷ []))
      (112 ∷ [])
    ≡ (
      true,
      (reload_schema
          (listed ℕ)
          (listed Ival)
          tagged
          (λ k. true)
          (λ k. true)
          (net_flush
            (beer_auth digest digest tagged net_wire
              (idle, gone)
              []
              (some (117 ∷ []))
              (112 ∷ [])).1).1).1,
    )
unfolding beer_auth auth_raw net_writev sendv send_raw and_then sendv_raw sendv_loop packaged
authenticate-unsent_example =
    authenticate-unsent (listed ℕ) (listed Ival) tagged (λ k. true) (λ k. true) digest digest
      (idle, gone) (some (117 ∷ [])) (112 ∷ []) refl refl refl
