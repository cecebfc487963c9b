-- ===== src/Net/Unsent.antt =====
-- A login that is not sent: `beer_authenticate` of beer/beer_net.c.
use bee_c.Base.{ℕ, ◌≡◌, refl, sym, ap, ◌∙◌, Bool, true, Option, none, List, drop, ◌==◌}
use bee_c.Msgpuck.{Msgpuck}
use bee_c.Io.{Peer}
use bee_c.Reply.{reply_init}
use bee_c.Schema.{Assoc, Ival}
use bee_c.Request.Auth.{beer_auth, auth_raw-Sends}
use bee_c.Net.{Net, net_wire, net_writev, net_flush, net_reply}
use bee_c.Net.Login.{Conn, authenticate, reload_schema, login_answered}

module _ {C : Type 0} where
  -- A write that fails is no reply to come.
  failed-kept :
      (x : Net C × Peer) (iov : List (List ℕ))
      → (net_writev x iov).0 ≡ none
      → (net_writev x iov).1.0.wrcnt ≡ x.0.wrcnt
  unfolding net_writev
  failed-kept x iov e = rw e refl

  flush-kept : (x : Net C × Peer) → (net_flush x).1.0.wrcnt ≡ x.0.wrcnt
  unfolding net_flush
  flush-kept x = refl

module _ {SM IM : Type 0} (sm : Assoc SM ℕ) (im : Assoc IM Ival) (mp : Msgpuck)
    (fill memory : ℕ → Bool) (sha1 base64_decode : List ℕ → List ℕ) where
  auth-kept :
      (x : Conn sm im mp fill memory) (login : Option (List ℕ)) (password : List ℕ)
      → (beer_auth sha1 base64_decode mp net_wire x x.0.greeting login password).0 ≡ none
      → (beer_auth sha1 base64_decode mp net_wire x x.0.greeting login password).1.0.wrcnt
        ≡ x.0.wrcnt
  unfolding beer_auth
  auth-kept x login password unsent =
      let (iov, sent, e) =
        auth_raw-Sends sha1 base64_decode mp net_wire x login password (drop 64 x.0.greeting) in
      ap (λ z. z.1.0.wrcnt) e ∙ failed-kept _ iov (ap (λ z. z.0) (sym e) ∙ unsent)

  -- Over a connection that is up and waits for no reply, a request to log in that cannot be sent
  -- is taken for a login that succeeded: no reply is read, the schema is asked for, and the
  -- result is that of a success, whatever came of the schema.
  pub authenticate-unsent :
      (x : Conn sm im mp fill memory) (login : Option (List ℕ)) (password : List ℕ)
      → x.0.io.connected ≡ true
      → x.0.wrcnt ≡ 0
      → (beer_auth sha1 base64_decode mp net_wire x x.0.greeting login password).0 ≡ none
      → authenticate sm im mp fill memory sha1 base64_decode x login password ≡ (
        true,
        (reload_schema sm im mp fill memory
            (net_flush
              (beer_auth sha1 base64_decode mp net_wire x x.0.greeting login password).1).1).1,
      )
  unfolding authenticate login_answered net_reply reply_init
  authenticate-unsent x login password up idle unsent =
      let a = (beer_auth sha1 base64_decode mp net_wire x x.0.greeting login password).1 in
      let b = (net_flush a).1 in
      let none_waits : (x.0.wrcnt == 0) ≡ true = rw idle refl in
      let none_came : (b.0.wrcnt == 0) ≡ true =
        rw (flush-kept a ∙ auth-kept x login password unsent ∙ idle) refl in
      simp (up, none_waits, none_came) refl
