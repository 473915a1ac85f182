-- ===== src/Lib.antt =====
-- Verification of kanotls, a tunnel that carries many streams in one TLS-like connection.
--
-- The client takes SOCKS5 and HTTP CONNECT requests (crates/proto), opens a stream of a session for
-- each, and writes its bytes as frames (crates/session); the shaped records of crates/tunnel carry the
-- frames to the server, which connects to the target and relays. What is modelled, and where:
--
-- - Prelude and its children: lists and tests over native numbers, results with `?`, big-endian words,
--   bits, and association lists for the hash maps.
-- - Frame: crates/session/src/frame.rs. `encode`, `decode`, `encode_psh_frames`,
--   `coalesce_encoded_frames` and the sized padding frames keep their names. Frame/Reader is the loop
--   of `Session::read_loop` in crates/session/src/session.rs that turns reads into frames; the handling
--   of each frame is the list that it gives.
-- - Replay: `SlidingWindow` of crates/tunnel/src/server/replay.rs, with the bitmap as a number.
--   Replay/Counter: `check_counter_replay` and `commit_counter_replay` of the same file, over an
--   interface for the `lru` crate's cache. Replay/Ephemeral: `is_replay`, with the time as an argument.
-- - Tunnel: `SnowyStream` of crates/tunnel/src/common.rs. Tunnel/Writing prepares the records and
--   flushes them, Tunnel/Reading is `poll_read`, whose two loops are the steps of `run`, and
--   Tunnel/Noise the interface to the `snow` crate. Tunnel/Plain reads a sequence of records in one
--   piece; Plain/Turns, Plain/Passing, Plain/Steps and Plain/Polls hold `poll_read` against it, and
--   Delivery joins the two sides. Tunnel/Auth: the masks and MACs of utils.rs, the end of
--   `ClientHelloTemplate::instantiate` of template.rs and `authenticate_client_hello` of server/mod.rs.
-- - Pending: crates/session/src/session/pending.rs. `buffered_stream_bytes`, the counter that the
--   payloads share, is passed from call to call; a payload's `drop` is an operation.
-- - Flow: crates/session/src/session/window.rs. Flow/Credit has `acquire_credit` as the atomic steps of
--   a task, Flow/Tasks any number of tasks in any order of their steps, and Flow/Receive the counts of
--   the receiving side with the packets that it queues. An i64 is its bit pattern.
-- - Session: the shared state of crates/session/src/session.rs as one record, on which each operation
--   is one step. Close and Store have the tombstones and what is kept within limits; Replies the
--   packets of the read loop, with session/h2.rs; Dispatch and Dispatch/Payloads
--   `Session::handle_frame`; Flush
--   `flush_client_pending_stream`, and Flush/Accept `flush_pending_accept_stream` with
--   `ServerSessionHandler::accept_stream` of server.rs; Inbox a pass of the loop of
--   `StreamReadHalf::read` in stream.rs. Counts, Inbox/Arrival, Inbox/Order, Inbox/Synack, Syn, Goaway
--   and Flush/Ends with Flush/Entries hold the proofs about them, Inbox/Race and Inbox/Gap two ways to
--   lose the order of a stream's bytes. Walk has the tests of the writer's task on the frame headers of
--   a write. A task that awaits the writer in `close_stream` has the writer's answer, or its absence, as
--   an argument. A stream's handle and its channels are entries of two tables with the same key.
-- - Proto: crates/proto/src/uot.rs (Uot), socks5.rs (Socks5 for the server, Socks5/Client for the
--   client), target.rs (Target) and inbound.rs (Inbound). A connection is what is still to be read and
--   what was written (Conn), so that each side is a function of the bytes that it gets; strings are
--   their bytes, and Utf8 says which bytes are a string. Socks5/Protocol describes what the server's side
--   of SOCKS5 answers, as a relation. Http is http.rs, on the reads that the socket gives; Http/Cuts and
--   Http/Headers say how far a line and a head use them.
-- - Session/Shaper: the policy of each data record of crates/session/src/shaper.rs, with what is drawn
--   at random and the delays as arguments.
-- - Pool: the seeded sizes and delays of crates/pool/src/behavior.rs. Pool/Connections: the choice of a
--   connection, the number that is wanted and the monitor's step on one, of pool.rs and connection.rs.
-- - ControlSize: the constants and the opening sequence of crates/tunnel/src/control_size.rs.
-- - Tests: runs of the definitions, and the theorems at concrete inputs.
--
-- Bounds and fuel. The decoding loop of Frame/Reader recurs on the length of its buffer, of which each
-- frame takes at least seven bytes; the chunking loop recurs on the length of the data; bitwise
-- operations recur on the number of bits, 64 for the bitmap; a port has at most five digits. The opening
-- flight has three packets and the fuel 4; the loop of `flush_pending_accept_stream` gets the fuel 2,
-- of a round that hands over and a round that finds nothing more. Casts and
-- additions of u8, u16, u32, u64 and i64 wrap as written in the definitions.
--
-- Not modelled: `open_stream`, the writer's task and the shutdown of a session, the writing halves
-- and the teardown of streams, wakeups of readers, the shaper's scripts and timers, the flights of
-- the tunnel's handshake, the templates but for their authentication, random sizes, the
-- configuration, the pool's tasks, DNS and the relays; of what is modelled, log lines, debug
-- assertions, the sharing of `Bytes`, the counters of stalls and the time limits. Sockets, the
-- resolver and the control queue answer through arguments.
pub mod Prelude
pub mod Frame
pub mod Replay
pub mod Pending
pub mod Flow
pub mod Proto
pub mod Session
pub mod Pool
pub mod ControlSize
pub mod Tunnel
pub mod Tests
