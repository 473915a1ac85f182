-- ===== src/Session/Counts.antt =====
-- The two counters of a session: `capacity_stream_count` is the number of streams that are open for
-- reading, `pending_inbound_streams` that of the streams that still hold a reservation, and both together
-- stay within the session's limit.
pub mod Tables
pub mod Steps
pub mod Payloads
pub mod Streams
pub mod Frames
