-- ===== src/Net/State.antt =====
-- A connection: `struct beer_stream_net` with the fields of its `struct beer_stream`, and the
-- functions of beer/beer_net.c that read, write, open and close it.
use bee_c.Base.{
  ℕ, ◌+◌, ◌-◌, ◌%◌, ◌^◌, Bool, true, false, Option, none, some, List, ◌==◌, if◌then◌else◌,
}
use bee_c.Msgpuck.{Msgpuck}
use bee_c.Io.{
  Error, eok, ememory, StreamNet, Peer, Ret, bytes, failure, blocked, stuck, send, sendv, recv,
  flush,
}
use bee_c.Io.Buffer.{iob_init, iob_clear, io_close}
use bee_c.Request.{Wire}
use bee_c.Request.Streams.{sent}
use bee_c.Reply.{Reply, reply_from}
use bee_c.Net.Options.{Opt, Parser, Setting, opt_set}

-- `cache` is the schema, of a type C, `none` before it is made.
pub record Net (C : Type 0) : Type 0 where
  pub wrcnt : ℕ
  pub reqid : ℕ
  pub inited : Bool
  pub opt : Opt
  pub greeting : List ℕ
  pub cache : Option C
  pub io : StreamNet

abbrev pub is_set : Option ℕ → Bool
is_set none = false
is_set (some p) = true

-- The error of a connection.
abbrev pub set_error : StreamNet → Error → StreamNet
set_error s e = record s { error = e }

abbrev pub is_ok : Error → Bool
is_ok eok = true
is_ok _ = false

-- What memory is found for.
pub record Grants : Type 0 where
  pub cache : Bool
  pub sbuf : Bool
  pub rbuf : Bool

-- A write that does not fail is one more reply to come.
abbrev pub counted : Option ℕ → ℕ → ℕ
counted none c = c
counted (some n) c = (c + 1) % 2 ^ 32

-- The bytes of a read that does not fail.
abbrev pub got : Ret → List ℕ → Option (List ℕ)
got (bytes n) bs = some bs
got failure bs = none
got blocked bs = none
got stuck bs = none

module _ {C : Type 0} where
  -- `beer_set`: true is 0.
  unfoldable pub net_set : Parser → Bool → Net C → Setting → Bool × Net C
  unfolding opt_set
  net_set parse granted n x =
      let (e, o) = opt_set parse granted n.opt x in
      (is_ok e, record n { opt = o; io = set_error n.io e })

  -- `beer_init`, with the empty cache.
  unfoldable pub net_init : C → Grants → Net C → Bool × Net C
  unfolding iob_init
  net_init empty g n =
      let (sent_ok, sbuf) =
        iob_init n.opt.send_buf (is_set n.opt.send_cb) (is_set n.opt.send_cbv) g.sbuf in
      let (recv_ok, rbuf) = iob_init n.opt.recv_buf (is_set n.opt.recv_cb) false g.rbuf in
      if g.cache
      then if sent_ok
        then if recv_ok
          then (
            true,
            record n {
              cache = some empty;
              io = record (n.io) { sbuf = sbuf; rbuf = rbuf };
              inited = true;
            },
          )
          else (
            false,
            record n {
              cache = some empty;
              io = record (n.io) { sbuf = sbuf; rbuf = rbuf; error = ememory };
            },
          )
        else (
          false,
          record n { cache = some empty; io = record (n.io) { sbuf = sbuf; error = ememory } },
        )
      else (false, record n { cache = none; io = set_error n.io ememory })

  unfoldable pub net_write : Net C × Peer → List ℕ → Option ℕ × (Net C × Peer)
  unfolding send
  net_write x data' =
      let (r, io', p) = send x.0.io data' x.1 in
      (sent r, (record (x.0) { wrcnt = counted (sent r) x.0.wrcnt; io = io' }, p))

  unfoldable pub net_writev : Net C × Peer → List (List ℕ) → Option ℕ × (Net C × Peer)
  unfolding sendv
  net_writev x iov =
      let (r, io', p) = sendv x.0.io iov x.1 in
      (sent r, (record (x.0) { wrcnt = counted (sent r) x.0.wrcnt; io = io' }, p))

  -- A connection as the stream of requests.
  abbrev pub net_wire : Wire (Net C × Peer)
  net_wire = record {
    reqid = λ x. x.0.reqid;
    set_reqid = λ x n. (record (x.0) { reqid = n }, x.1);
    writev = net_writev;
  }

  unfoldable pub net_read : Net C × Peer → ℕ → Option (List ℕ) × (Net C × Peer)
  unfolding recv
  net_read x size =
      let (r, bs, io', p) = recv x.0.io size x.1 in (got r bs, (record (x.0) { io = io' }, p))

  -- `beer_net_reply`: 1 where no reply is to come.
  unfoldable pub net_reply :
      Msgpuck → (ℕ → Bool) → Reply → Net C × Peer → Option ℕ × Reply × (Net C × Peer)
  unfolding net_read reply_from
  net_reply mp granted r x =
      if x.0.wrcnt == 0
      then (some 1, r, x)
      else reply_from mp net_read granted r (record (x.0) { wrcnt = x.0.wrcnt - 1 }, x.1)

  unfoldable pub net_flush : Net C × Peer → Option ℕ × (Net C × Peer)
  unfolding flush
  net_flush x = let (r, io', p) = flush x.0.io x.1 in (sent r, (record (x.0) { io = io' }, p))

  -- `beer_close`
  unfoldable pub net_close : Net C → Net C
  unfolding iob_clear io_close
  net_close n = record n {
    io = io_close (record (n.io) { sbuf = iob_clear n.io.sbuf; rbuf = iob_clear n.io.rbuf });
    wrcnt = 0;
    reqid = 0;
  }
