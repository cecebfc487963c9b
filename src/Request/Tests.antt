-- ===== src/Request/Tests.antt =====
-- Runs of the requests on a small memory stream.
use bee_c.Base.{ℕ, ◌≡◌, refl, true, false, Option, none, some, List, [], ◌∷◌, ◌++◌, arith}
use bee_c.Msgpuck.Sample.{sample}
use bee_c.Buf.Sample.{heap, stream, stream-IsValid}
use bee_c.Request.Key
use bee_c.Base.{◌-◌, ◌%◌, ◌^◌, ◌≢◌}
use bee_c.Buf.{Stream, buf_writev}
use bee_c.Request.{request_compile, send_draft}
use bee_c.Request.{set_key, set_iterator, set_limit, set_offset, set_index}
use bee_c.Request.Routes.{Agree, select-Agree}
use bee_c.Request.Id.{request_compile-id}
use bee_c.Request.{select, insert, object_verify}
use bee_c.Request.{
  beer_ping, beer_select, beer_upsert, Request, request_of, set_space, set_tuple, request_writeout,
  draft, encode_header, encode_luint32,
}
use bee_c.Request.Packet.{Sends, packet}
use bee_c.Request.Packet.{number}
use bee_c.Request.Sent.{select-Sends}
use bee_c.Request.Upsert.{Overcounted, upsert-Overcounted}
use bee_c.Io
use bee_c.Io.{StreamNet, Peer, taken, eok}
use bee_c.Request.Streams.{connection, memory}
use bee_c.Request.Series.{
  Query, pinged, inserted as insertion, replaced, packet_of, query, queries, Filled, queries-Filled,
  Carried, queries-Carried,
}
use bee_c.Request.{upsert, beer_insert, store_base, packaged}
use bee_c.Io.{sendv, sendv_raw, sendv_loop}

-- The array [1].
abbrev one : List ℕ
one = 0x91 ∷ 1 ∷ []

-- A request to insert [1] into space 512.
abbrev inserted : Request
inserted = set_tuple (set_space (request_of insert) 512) one

insert_packet :
    packet sample insert 7 (number sample Key.space 512 ∷ (Key.tuple, one) ∷ [])
    ≡ 0xce ∷ 0 ∷ 0 ∷ 0 ∷ 13 ∷ 0x82 ∷ 0 ∷ 2 ∷ 1 ∷ 7 ∷ 0x82 ∷ 16 ∷ 0xcd ∷ 2 ∷ 0 ∷ 33 ∷ 0x91 ∷ 1 ∷ []
unfolding encode_header encode_luint32
insert_packet = refl

select-Sends_example :
    Sends sample
      (memory heap)
      select
      (number sample Key.space 512
        ∷ number sample Key.index 0
        ∷ number sample Key.limit 10
        ∷ number sample Key.offset 0
        ∷ number sample Key.iterator 2
        ∷ (Key.key, one)
        ∷ [])
      stream
      (beer_select sample (memory heap) stream 512 0 10 0 2 one)
unfolding object_verify
select-Sends_example = select-Sends sample (memory heap) stream 512 0 10 0 2 one

-- A request object of type upsert with a space.
abbrev with_space : Request
with_space = set_tuple (set_space (request_of upsert) 512) one

upsert-Overcounted_example :
    Overcounted sample
      (memory heap)
      true
      512
      one
      one
      stream
      (beer_upsert sample (memory heap) stream 512 one one)
unfolding object_verify
upsert-Overcounted_example = upsert-Overcounted sample (memory heap) stream 512 one one

-- Two good requests and one whose tuple is not whole.
abbrev three_queries : List Query
three_queries = insertion 512 one ∷ replaced 512 [] ∷ pinged ∷ []

queries-Filled_example :
    Filled sample heap
      (λ k n. refl)
      stream
      (some 18 ∷ none ∷ some 11 ∷ [])
      (packet_of sample 0 (insertion 512 one) ++ (packet_of sample 1 pinged ++ []))
      (queries sample (memory heap) three_queries stream)
unfolding object_verify encode_header encode_luint32
queries-Filled_example =
    queries-Filled sample heap (λ k n. refl) three_queries stream stream-IsValid

-- A digest of twenty times the length, and a decoder that keeps the characters.
abbrev digest : List ℕ → List ℕ
digest bs = bee_c.Base.take 20 (
    bs
    ++ bs
    ++ (0 ∷ 1 ∷ 2 ∷ 3 ∷ 4 ∷ 5 ∷ 6 ∷ 7 ∷ 8 ∷ 9 ∷ 0 ∷ 1 ∷ 2 ∷ 3 ∷ 4 ∷ 5 ∷ 6 ∷ 7 ∷ 8 ∷ 9 ∷ []))

abbrev net : StreamNet
net = record {
  connected = true;
  fd = some 3;
  sbuf = record { buf = none; off = 0; top = 0; size = 0; tx = false; txv = false };
  rbuf = record { buf = none; off = 0; top = 0; size = 0; tx = false; txv = false };
  error = eok;
  errno_ = 0;
}

-- A peer that takes four bytes, and then many.
abbrev peer : Peer
peer = record {
  answers = taken 4 ∷ taken 900 ∷ taken 900 ∷ [];
  wire = [];
  incoming = [];
  errno = 0;
}

queries-Carried_example :
    Carried sample net peer
      (some 18 ∷ some 11 ∷ [])
      (packet_of sample 7 (insertion 512 one) ++ (packet_of sample 8 pinged ++ []))
      (queries sample connection (insertion 512 one ∷ pinged ∷ []) (7, net, peer))
unfolding object_verify encode_header encode_luint32 queries query beer_insert store_base beer_ping
    packaged sendv sendv_raw sendv_loop Io.advance
queries-Carried_example =
    queries-Carried sample (insertion 512 one ∷ pinged ∷ []) 7 net peer
      (record { small = omega arith; within = omega arith; room = refl })
      (omega arith, (omega arith, tt)) tt

-- A stream whose next id would be INT64_MAX.
abbrev late : Stream
late = record stream { reqid = 2 ^ 63 - 1 }

request_compile-id_example :
    ((request_compile sample (memory heap) late inserted).1.sync ≡ 0) × (0 % 2 ^ 63 ≢ 2 ^ 63 - 1)
unfolding request_of set_space set_tuple request_compile request_writeout send_draft draft
    buf_writev
request_compile-id_example =
    request_compile-id sample (memory heap) (λ s n. refl) late inserted 0 refl

select-Agree_example :
    Agree sample (memory heap) stream (beer_select sample (memory heap) stream 512 1 10 2 2 one) (
      set_key
        (set_iterator
          (set_limit (set_offset (set_index (set_space (request_of select) 512) 1) 2) 10)
          2)
        one)
unfolding object_verify
select-Agree_example = select-Agree sample (memory heap) stream 512 0 10 1 1 one refl
