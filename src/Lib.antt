-- ===== src/Lib.antt =====
-- Verification of shb, an HTTP benchmark client: the parts of its own QUIC stack, of its HTTP response
-- readers and of its request accounting that are pure logic.
--
-- The program's parts. `src/quic/conn.rs` runs a connection: it parses datagrams (`header.rs`,
-- `packet.rs`, `frame.rs`, `varint.rs`), refuses duplicates (`received.rs`), decides what to
-- acknowledge (`ack.rs`), keeps what was sent (`recovery.rs`) and one buffer for each direction of a
-- stream (`stream.rs`). HTTP/1.1, HTTP/2 and HTTP/3 clients (`src/http1.rs`, `src/http2.rs`,
-- `src/http3.rs`) share the bookkeeping of open requests (`src/inflight.rs`), the budget of requests
-- (`src/budget.rs`) and the reading of status codes (`src/status.rs`). The HTTP/1.1 client hands what it
-- receives to `src/http1/parse.rs`, which finds where each response ends; the HTTP/2 and HTTP/3 clients
-- render the header block of a request once and look for the status in a response's
-- (`src/http2/hpack.rs`, `src/http3/qpack.rs`).
--
-- The files:
--   Common              tests, lists, texts, machine words and bits that the other modules share
--   Quic/Varint         src/quic/varint.rs: put_varint, get_varint
--   Quic/Received       src/quic/received.rs: ReceivedPackets::insert
--   Quic/Frame          src/quic/frame.rs: Iter (next_frame, rare_frame, next), AckRanges, put_*
--   Quic/Ack            src/quic/ack.rs: AckState
--   Quic/PacketNumber   src/quic/packet.rs: encode_packet_number, decode_packet_number
--   Quic/Header         src/quic/header.rs: decode_header, LongHeader::put, put_short_header
--   Quic/Transport      src/quic/transport.rs: Params::decode, LocalParams::encode
--   Quic/StreamId       src/quic/stream.rs: Dir, stream_dir, is_client_initiated, client_stream_id
--   Quic/RecvStream     src/quic/stream.rs: RecvStream
--   Quic/SendStream     src/quic/stream.rs: SendStream
--   Quic/Recovery       src/quic/recovery.rs: Rtt, SentPackets, Congestion, pto_deadline
--   Budget              src/budget.rs: Budget
--   Status              src/status.rs: status_value
--   InFlight            src/inflight.rs: Ring
--   Http1               src/http1/parse.rs: Parser (new, reset, set_head_request, feed, mark_eof, run)
--   Prefix              src/http2/hpack.rs, src/http3/qpack.rs: encode_int, decode_int, read_str at
--                       either width, and the loop over the fields that both files have
--   Hpack               src/http2/hpack.rs: encode_request, size_update, find_status
--   Qpack               src/http3/qpack.rs: encode_request, find_status
--   Http3               src/http3/proto.rs: request_bytes, control_stream_prelude, ResponseReader, UniReader
--   Incremental         the loop that both readers of src/http3/proto.rs are
--
-- Each component's module holds the definitions, its children the proofs, and its child Runs the
-- tests and the theorems at concrete inputs. What a peer can send in a header block or a field section
-- is written down from the RFCs, apart from the code, in Prefix/Names, Hpack/Blocks and Qpack/Lines.
--
-- The model. A byte and an unsigned integer are a native number; `u64` and `usize` (of 64 bits) wrap
-- in a release build, which is written out (`add_u64`, `sub_u64`) except where a component's comment
-- says why the sum stays below the bound. A `Vec` is a list, a slice with a position is the list of
-- what is left, `&mut self` is a state passed on, `Result` is a type of the component's own, without
-- the text of the message. An instant and a duration are a number of nanoseconds.
--
-- Fuel. `AckRanges.collect` walks on fuel, one more than the bytes of the frame: each step of the walk
-- takes at least two bytes. `Http1.Scan.run_fuel` has two turns for each byte and two more, since a
-- turn that takes no byte leads to one that does, and a body of no bytes takes one turn of its own.
-- `Prefix.walk_fuel`, `Quic.Transport.decode_fuel` and `Incremental.loop_fuel` have one step more than
-- there are bytes: each field, parameter and frame takes a byte. That these never run out is proved:
-- `run-turn`, `walk-step`, `decode_from-turn` and `loop-turn` say that the loop is its turns. `Prefix.encode_rest` writes at most ten groups
-- of seven bits, and `Prefix.decimal_fuel` at most twenty digits, which is what 64 bits have.
--
-- Not modelled: sockets, io_uring, TLS and the cryptography of packets (calls of the kernel and of
-- rustls), the capacity of reused buffers, the texts of errors, the parser behind an error (the
-- connection is closed then), and the connection and protocol handlers that join these parts.

pub mod Common
pub mod Quic
pub mod Budget
pub mod Status
pub mod InFlight
pub mod Http1
pub mod Prefix
pub mod Hpack
pub mod Qpack
pub mod Incremental
pub mod Http3
