-- ===== src/Lib.antt =====
-- bee-c is a C client library for a database server that speaks MessagePack over a socket. This
-- library models the parts of it that carry bytes and meaning: the buffered connection, the memory
-- streams, the builder of MessagePack objects, the requests, the parser of replies, the schema cache,
-- and the reader of logs.
--
-- The parts, and the files that model them:
--
-- * Io (beer/beer_io.c, beer/beer_iob.c, include/bee/beer_net.h, include/bee/beer_iob.h).
--   Io/State has `struct beer_iob` and the fields of `struct beer_stream_net` that the input and
--   output functions use, as records. A run is given the list of answers of the kernel or of the
--   user's callbacks (Io/State, Answer, Peer), one for each call; it ends as `blocked` where the list
--   ends. send_raw, sendv_raw, send, sendv and flush (Io/Send) are beer_io_send_raw,
--   beer_io_sendv_raw, beer_io_send, beer_io_sendv and beer_io_flush; recv_raw and recv (Io/Recv) are
--   beer_io_recv_raw and beer_io_recv; Io/Buffer has beer_iob_init, beer_iob_clear and beer_io_close.
--   The inner loops recur on the list of answers. The loop of beer_io_recv recurs on fuel, one more
--   than there are answers, as each round but the last takes one. `size_t` sums are taken modulo
--   2 ^ 64. Sizes below 2 ^ 63 are a condition of the theorems, as no object of a program is larger.
--   Io/Connect has beer_io_connect and what it calls, over the answers of the system calls, one for each
--   call (Os); the loop around `select` recurs on the list of what it reports, which ends where the time
--   is up; Io/Patience is about that loop. Io/Xbufmax has beer_io_xbufmax, on fuel 29, as it halves fewer than 2 ^ 28 sizes; its result
--   is the size that the kernel has at the end.
-- * Msgpuck. The codec msgpuck is a submodule without sources here, so its functions are the fields of
--   a record that the other modules take as a parameter, and its documented sizes and round trips are
--   named laws (Msgpuck.Sizes, Reply.RoundTrip.Decodes). Msgpuck/Sample is a codec for examples.
-- * Buf (beer/beer_buf.c, beer/beer_stream.c, beer_sbuf_object_resize of beer/beer_object.c). A
--   stream owns a region of memory given by its bytes; a pointer that was freed is a value of its own
--   (Ptr), and a use of it is the result `fault`. The allocator is a parameter (Heap): whether its k-th
--   call succeeds, and what fresh memory holds.
-- * Object (beer/beer_object.c). A stream with the stack of its open containers. Object/State,
--   Object/Scalars and Object/Containers have the functions of the file; Object/Program is a client
--   that adds a whole tree of values, next to the encoding of the tree; the other modules
--   relate the two: Frames (the stack), Values, Headers, Close (the memory), Opening,
--   Closing, Built and Build.
-- * Request (beer/beer_proto_internal.h, beer_ping.c, beer_select.c, beer_insert.c, beer_delete.c,
--   beer_call.c, beer_update.c, beer_auth.c, beer_request.c, all under beer/). Requests are written to a
--   Wire, which is a request id and a vector write; Request/Streams gives the two wires of the
--   program, a memory stream (Buf) and a connection (Io), and what a request does to each.
--   Request/Direct has the functions that write one request each, Request/Auth the login,
--   Request/Compile the request object. Request/Packet states what a request is: a length, a header
--   and a map of fields; Sent, Held and Writeout relate the functions to it, Routes the two ways to
--   a request, Id is about the id that compiling returns, Upsert about the two ways of an upsert, and
--   Series about requests one after the other on either wire.
-- * Update (beer/beer_update.c). The list of operations of an update, over an object of Object:
--   Update/Ops has the functions, Update/Tuple a client that makes a list of changes and the bytes
--   of each, Update/Built the whole list.
-- * Reply (beer/beer_reply.c). Reply/Parse has beer_reply_from over a receive function and
--   beer_reply over a buffer; RoundTrip, Whole and Failure relate it to what a server writes.
-- * Iter (beer/beer_iter.c). Iter/Walk has the iterators over arrays and maps, Iter/Visits and
--   Iter/Pairs relate a walk to the list of what it visits.
-- * Schema (beer/beer_schema.c). The cache of the names of spaces and indexes. The hash table is the
--   parameter Assoc, with the laws of a map as Finds; a space has two keys and one address, so a heap of
--   spaces stands beside the table (Schema/Store). Spaces, Indexes and Loaded relate the cache to the
--   tuples that fill it, Listed is a table for examples.
-- * Net (beer/beer_net.c, beer/beer_opt.c, include/bee/beer_opt.h). The connection as a stream: Net/State
--   has its state, with that of Io, and reads, writes, options, opening and closing; Net/Login has
--   beer_connect, beer_authenticate and beer_reload_schema, over Request, Reply and Schema. The loop over
--   the replies recurs on fuel, one more than the replies to come, as each round but the last takes one.
--   Net/Replies is about the count of the replies to come, Net/Unsent about a login that is not sent.
-- * Tp (include/tp.h). The header-only client, which shares no code with the rest. Tp/State has
--   `struct tp`, its growth, its length field and its id; Tp/Requests the functions that begin a
--   request and that add to one, Tp/Format the one over the formatter of the codec. Pointers into the
--   buffer are offsets, which is what makes them survive its growth; `fault` is an assertion that
--   fails or a pointer that leaves the buffer. Sizes that the source keeps as an `int` are written out
--   (int_size). Tp/Draft is the abstract view of a buffer: the finished requests, and the code, the
--   id and the body of the one under way; Steps, Reqid, Program and Runs relate calls and sequences of
--   calls (Tp/Commands) to it, Whole complete requests to the layout of the protocol. Padded, Faults and
--   Growth are about the calls that count what they do not write, or the reverse, and about the room
--   that the reallocation of the file finds. Tp/Iterators and Tp/Response have the iterators and the parser
--   of replies; Agree relates the iterators to those of Iter, Answer, Received and Walk relate the parser
--   and the loops of its users to what a server writes.
-- * Rpl (beerrpl/beer_log.c, beerrpl/beer_log.h). The reader of logs and snapshots. A stream of the C
--   library is its bytes and a position; the checksum crc32c is a parameter. Rpl/Read has beer_log_read
--   and beer_log_eof, the search for a marker recurring on the bytes ahead; Rpl/Open has beer_log_open,
--   whose loop over headers has fuel for one more line than there are bytes, and beer_log_guess. Marker,
--   Records and Whole relate the reads to what a server writes, Opened the opening. `errno` is left out.
-- * Base has the notation that all modules share, Boolean tests, arrays as lists, and memcpy.
--
-- Left out: the resolution of host names, the format interpreter of beer/beer_object.c, the
-- iterator over replies, the constructor, the accessors and the error texts of a connection, and, under beerrpl, what stands on the reader of records. Of include/tp.h, the
-- functions that only pass a pointer to a decoder of the codec. SHA-1, base64, crc32c, the hash table
-- and the URI parser are code of other projects. Freeing memory is left out where no state is read after
-- it, and so is emptying the schema cache. Sizes of memory streams count bytes that exist, so their
-- sums do not wrap.

pub mod Base
pub mod Io
pub mod Msgpuck
pub mod Buf
pub mod Object
pub mod Request
pub mod Update
pub mod Reply
pub mod Iter
pub mod Tp
pub mod Schema
pub mod Net
pub mod Rpl
