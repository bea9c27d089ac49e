-- ===== src/Lib.antt =====
-- Volo, a framework for RPC services: what its codecs, balancers and pools compute.
--
-- The workspace is a tree of crates. `volo` holds what the protocols share: service discovery,
-- which names the instances of a service, and the load balancers, which pick instances for a call.
-- A client of `volo-thrift` takes a connection from a pool, alone or shared with other calls, and
-- writes its message behind a TTHeader, which carries the metadata of the call; the server reads
-- the header before the message. `volo-grpc` cuts a stream of messages into frames over HTTP/2,
-- and ends it with a status. `volo-http` serves HTTP: a response can be a stream of events, and a
-- client follows redirects.
--
-- TtHeader and the modules below it are volo-thrift/src/codec/default/ttheader.rs. Encode has
-- `encode`, Size has `encode_size`, Decode reads the header's bytes into pairs, and Apply takes
-- the pairs into the context: `decode` and `set_biz_error_header`. A function of the source that
-- is one long body is cut at its comments into one definition for each part. The context is a
-- record `Cx` of what the codec reads and writes; metainfo, itoa, sonic_rs and the parsers of
-- numbers and addresses are the record `Externals`. Layout describes the header as a list of
-- pairs, apart from the code, and Learned what the pairs of a header change in the reader's
-- context and metainfo; Layout/Writer, Layout/Refines, SizeAdds, SizeAgrees, Reads, RoundTrip and
-- Request relate the code to them.
--
-- TtHeader/Outer has `TTHeaderEncoder` and `TTHeaderDecoder` around an inner codec, Outer/Header
-- what they see of a header, and Outer/Request a request that goes through them.
--
-- Framed is volo-thrift/src/codec/default/framed.rs: the length in front of a message, around an
-- inner codec that is the record `Inner`. Thrift is volo-thrift/src/codec/default/thrift.rs and
-- volo-thrift/src/message_wrapper.rs: the protocol of a message, and the message around the user's
-- type, which Messages builds; pilota's protocols are the record `Pilota`. DefaultCodec is
-- volo-thrift/src/codec/default/mod.rs: the header around the frame around the message, and the
-- encoder and the decoder of a connection. What their asynchronous halves read from, a buffered
-- reader, is the list of the bytes that it has not given out yet. BufReader is what
-- volo/src/util/buf_reader.rs adds to tokio's reader, `fill_buf_at_least` and `compact`, over a
-- reader that is the record `Source`, whose reads may fail.
--
-- Balance/Discovery is volo/src/discovery/mod.rs: `diff_address`. Balance/Random and Balance/Hash
-- are volo/src/loadbalance/random.rs and volo/src/loadbalance/consistent_hash.rs: building the
-- weighted lists, the iterators' `next`, `get_picker` and `rebalance`. Random numbers, binary
-- search, sorting, murmur3 and the text of an address are arguments. An address is a type with a
-- test of equality.
--
-- Grpc/Status and Grpc/Infer are volo-grpc/src/status.rs: the codes and their texts, and the
-- status that the trailers or the HTTP status give; Grpc/Trailers has the headers that carry a
-- status, and Grpc/Trailers/Escapes the set of bytes that a message's percent coding escapes; the
-- crate percent_encoding is an argument, and Grpc/Percent a coding that stands for it in the runs.
-- Grpc/Timeout is volo-grpc/src/layer/grpc_timeout.rs. Grpc/Frames is
-- volo-grpc/src/codec/encode.rs, and Grpc/Frames/Receive is volo-grpc/src/codec/decode.rs:
-- `decode_chunk` and `poll_next`, where a poll of the body is an event. The serializer and the
-- compression are the record `Codec`.
--
-- Http/Sse is the server's and the client's half of server-sent events. Server has
-- volo-http/src/server/response/sse.rs: the builder of an event, `poll_frame` of the body and the
-- keep-alive stream. Pending and Reader have volo-http/src/client/sse.rs: the event that is being
-- read, and `next_line`, `process_line` and `read`. Drain, Lines, Settled and Messages read a body
-- that is cut into frames anywhere, Built and Writes say what the builder has written, RoundTrip
-- and Json put the two together, and Crlf has a line ending that is cut in two. Http/Target is
-- volo-http/src/client/target.rs, with what volo-http/src/client/utils.rs and
-- volo-http/src/client/layer/header.rs do with a target. Http/Redirect is
-- volo-http/src/client/layer/redirect.rs: Head rewrites a request, Follow is the loop, and Hops,
-- Bounded, Origin, Credentials and Replay are about it. The inner service, the crate `url` and the
-- types of the crate `http` are arguments; a call of the layer gives the list of the requests that
-- were sent. Event streams and redirects do not call each other.
--
-- Pool is volo-thrift/src/transport/pool/mod.rs: Waiters has the queue of waiters and what `put`
-- hands to them, Idle the loops of `get` over idle connections and `clear_expired`, and Steps
-- every step that the pool takes under its lock; Steps/Reach has the steps of any callers in any
-- order as a relation. A connection's own calls are the record `Poolable`, and a channel's ends
-- the record `Channels`.
--
-- Multiplex is volo-thrift/src/transport/multiplex/thrift_transport.rs: `send` cut into its parts
-- between two accesses of the shared state, and the task that reads. Multiplex/Steps has them as a
-- relation on the state of the connection and of all its calls; Owned, Matched, Kept, Answers,
-- Retired, Stranded and Stopped are about the states that are reached. Multiplex/Pooled has this
-- transport as a connection of the pool.
--
-- Numbers: a byte is a number, a word is written with its bytes, and arithmetic wraps round as in
-- the release profile, which has no overflow checks. A subtraction that the source makes on sizes
-- wraps too (`sub_usize`). Loops are recursion on the list they walk. Five run on fuel: the reader
-- of sections, with one round more than there are bytes, since each round takes a byte; the digits
-- of a `u32`, with ten; the reader of event lines, with one round more than there are bytes; the
-- redirects, with one round more than the limit; and filling a buffer, with one round more than
-- the bytes that are asked for, since each round reads a byte. Lengths in memory stay below 2 ^
-- 64.
--
-- Not modelled: sockets, tasks and timers, the code generators and the command line, the copy of
-- tonic's metadata and the one of hyper's pool, the router and the extractors of volo-http, and
-- the loops of the Thrift servers. What a context keeps for statistics is left out.
pub mod Base
pub mod TtHeader
pub mod Balance
pub mod Grpc
pub mod Http
pub mod BufReader
pub mod Framed
pub mod Thrift
pub mod DefaultCodec
pub mod Multiplex
pub mod Pool
