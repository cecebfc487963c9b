-- ===== src/Io/Tests.antt =====
-- Runs of the input and output functions on a small connection.
use bee_c.Base.{ℕ, Bool, leb, ◌≡◌, refl, true, false, none, some, List, [], ◌∷◌, arith}
use bee_c.Base.Memory.{write_at}
use bee_c.Io.{send_loop, send_raw, and_then, recv_raw, recv_loop}
use bee_c.Io.{Iob, StreamNet, Peer, taken, failed, bytes, send, sendv, recv, flush, eok}
use bee_c.Io.{send_raw, and_then, recv_raw, recv_loop}
use bee_c.Io.Deliver.{IsValid, Delivered, send-Delivered}
use bee_c.Io.Vector.{sendv-Delivered}
use bee_c.Io.Receive.{IsValid as CanReceive, Taken}
use bee_c.Io.Rounds.{recv-Taken}
use bee_c.Io.Supply.{recv_total}
use bee_c.Io.Connect.{
  Os, Sys, value, Select, interrupted, Hint, io_connect, with_socket, io_setopts, connect_by,
  io_connect_tcp, io_connect_do, io_nonblock, dialed, in_progress, wait_connected,
}
use bee_c.Io.Patience.{WaitedFor, io_connect-WaitedFor}
use bee_c.Io.Xbufmax.{io_xbufmax, io_xbufmax-largest}
use bee_c.Io.Session.{Call, write, writev, run, run_then_flush}

-- A buffer of four bytes that holds two.
abbrev held : Iob
held = record {
  buf = some (1 ∷ 2 ∷ 0 ∷ 0 ∷ []);
  off = 2;
  top = 0;
  size = 4;
  tx = false;
  txv = false;
}

-- A buffer of four bytes, of which the last two are still to be read.
abbrev unread : Iob
unread = record {
  buf = some (7 ∷ 8 ∷ 9 ∷ 10 ∷ []);
  off = 2;
  top = 4;
  size = 4;
  tx = false;
  txv = false;
}

abbrev net : StreamNet
net = record { connected = true; fd = some 3; sbuf = held; rbuf = unread; error = eok; errno_ = 0 }

-- A peer whose calls move a few bytes each, one of them after an interrupt.
abbrev peer : Peer
peer = record {
  answers = taken 1 ∷ failed 4 ∷ taken 9 ∷ taken 2 ∷ taken 5 ∷ [];
  wire = [];
  incoming = 11 ∷ 12 ∷ 13 ∷ [];
  errno = 0;
}

abbrev ready : Peer
ready = record {
  answers = taken 1 ∷ taken 2 ∷ taken 5 ∷ taken 5 ∷ [];
  wire = [];
  incoming = 11 ∷ 12 ∷ 13 ∷ [];
  errno = 0;
}

held-IsValid : IsValid held
held-IsValid = record { small = omega arith; within = omega arith; room = refl }

unread-IsValid : CanReceive unread
unread-IsValid = record {
  small = omega arith;
  start = omega arith;
  within = omega arith;
  room = refl;
}

-- The buffer is full, so it is sent, and the new bytes take its place.
send_full : (send net (3 ∷ 4 ∷ 5 ∷ []) peer).2.wire ≡ 1 ∷ 2 ∷ []
unfolding send send_raw send_loop and_then
send_full = refl

-- Five bytes are wanted: two are buffered, and three come over the wire.
recv_five : (recv net 5 ready).1 ≡ 9 ∷ 10 ∷ 11 ∷ 12 ∷ 13 ∷ []
unfolding recv recv_raw recv_loop write_at
recv_five = refl

send-Delivered_example : Delivered net peer (3 ∷ 4 ∷ 5 ∷ []) (send net (3 ∷ 4 ∷ 5 ∷ []) peer)
send-Delivered_example = send-Delivered net (3 ∷ 4 ∷ 5 ∷ []) peer held-IsValid

sendv-Delivered_example :
    Delivered net peer (3 ∷ 4 ∷ 5 ∷ []) (sendv net ((3 ∷ []) ∷ (4 ∷ 5 ∷ []) ∷ []) peer)
sendv-Delivered_example =
    sendv-Delivered net ((3 ∷ []) ∷ (4 ∷ 5 ∷ []) ∷ []) peer held-IsValid (omega arith)

recv-Taken_example : Taken (9 ∷ 10 ∷ 11 ∷ 12 ∷ 13 ∷ []) 4 eok (recv net 4 peer)
recv-Taken_example = recv-Taken net 4 peer unread-IsValid (omega arith)

recv_total_example : (recv net 5 ready).0 ≡ bytes 5
recv_total_example =
    recv_total net (7 ∷ 8 ∷ 9 ∷ 10 ∷ []) 5 ready refl unread-IsValid (omega arith) (omega arith)
      (omega arith)

-- Two writes that the buffer takes, the second after sending the first bytes.
abbrev calls : List Call
calls = write (3 ∷ []) ∷ writev ((4 ∷ []) ∷ (5 ∷ 6 ∷ []) ∷ []) ∷ []

abbrev after : StreamNet × Peer
after = elim (run net calls ready) [ none ↦ (net, ready) | some x ↦ x ]

run_then_flush_example : (flush after.0 after.1).2.wire ≡ 1 ∷ 2 ∷ 3 ∷ 4 ∷ 5 ∷ 6 ∷ []
unfolding run send sendv flush send_raw send_loop and_then write_at
run_then_flush_example =
    run_then_flush calls net after.0 ready after.1 3 held-IsValid (omega arith) refl refl

abbrev down : StreamNet
down = record net { connected = false }

-- A system where the connection is under way and a signal comes after twenty seconds.
abbrev system : Os
system = record {
  socket = value 7;
  nodelay = value 0;
  sndtimeo = value 0;
  rcvtimeo = value 0;
  resolves = true;
  get_flags = value 2;
  set_flags = value 0;
  connects = Sys.failed 115;
  start = value 1000000;
  selects = interrupted (value 21000000) ∷ Select.ready ∷ [];
  so_error = value 0;
  get_flags_again = value 2;
  set_flags_again = value 0;
}

io_connect-WaitedFor_example : WaitedFor 17000000 (interrupted (value 21000000) ∷ Select.ready ∷ [])
unfolding io_connect with_socket io_setopts connect_by io_connect_tcp io_connect_do io_nonblock
    dialed in_progress wait_connected
io_connect-WaitedFor_example =
    io_connect-WaitedFor down Hint.ipv6 16 system 1000000 refl refl refl refl

-- A kernel with buffers of up to a million bytes.
abbrev up_to_million : ℕ → Bool
up_to_million n = leb n 1000000

io_xbufmax-largest_example : io_xbufmax up_to_million 0 ≡ some (some 1000000)
io_xbufmax-largest_example =
    io_xbufmax-largest up_to_million 1000000 (λ n. refl) 0 (omega arith) (omega arith) (omega arith)
