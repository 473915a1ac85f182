-- ===== src/Pending/Opening.antt =====
-- crates/session/src/session/pending.rs, `PendingOpenStreams`: what arrives for a stream that the server
-- has not accepted yet.
pub mod Accounts
pub mod Handover
use kanotls.Prelude.{
  ℕ, ◌+◌, ◌-◌, List, [], ◌∷◌, ◌++◌, Option, none, some, Bool, true, false, if◌then◌else◌, length,
}
use kanotls.Prelude.Maps.{lookup, insert, remove, has_key}
use kanotls.Pending.{BufferedPayload, len, drop_payload, drop_payloads}

pub record PendingOpenStream : Type 0 where
  pub buffered_data : List BufferedPayload
  pub bytes : ℕ
  pub buffered_fin : Bool
  pub reservation_released : Bool

abbrev pub default_stream : PendingOpenStream
default_stream = record {
  buffered_data = [];
  bytes = 0;
  buffered_fin = false;
  reservation_released = false;
}

pub record PendingOpenStreams : Type 0 where
  pub streams : List (ℕ × PendingOpenStream)
  pub total_bytes : ℕ

abbrev pub none_open : PendingOpenStreams
none_open = record { streams = []; total_bytes = 0 }

abbrev pub is_empty : PendingOpenStreams → Bool
is_empty o = elim o.streams [ [] ↦ true | _ ∷ _ ↦ false ]

unfoldable pub contains : PendingOpenStreams → ℕ → Bool
unfolding has_key
contains o sid = has_key sid o.streams

unfoldable pub stream_frames : PendingOpenStreams → ℕ → ℕ
unfolding lookup
stream_frames o sid = elim (lookup sid o.streams) [ none ↦ 0 | some s ↦ length s.buffered_data ]

-- The entry's payloads are dropped: the counter `buffered_stream_bytes` goes from call to call.
unfoldable pub remove_open : PendingOpenStreams → ℕ → ℕ → PendingOpenStreams × ℕ
unfolding lookup remove
remove_open o sid counter = elim (lookup sid o.streams) [
  | none ↦ (o, counter)
  | some s ↦ (
    record { streams = remove sid o.streams; total_bytes = o.total_bytes - s.bytes },
    drop_payloads s.buffered_data counter,
  )
]

unfoldable pub insert_new : PendingOpenStreams → ℕ → ℕ → PendingOpenStreams × ℕ
unfolding remove_open insert
insert_new o sid counter =
    let removed = remove_open o sid counter in
    (record (removed.0) { streams = insert sid default_stream removed.0.streams }, removed.1)

unfoldable pub drop_streams : List (ℕ × PendingOpenStream) → ℕ → ℕ
unfolding drop_payloads
drop_streams [] counter = counter
drop_streams ((sid, s) ∷ m) counter = drop_streams m (drop_payloads s.buffered_data counter)

unfoldable pub clear_open : PendingOpenStreams → ℕ → PendingOpenStreams × ℕ
unfolding drop_streams
clear_open o counter = (none_open, drop_streams o.streams counter)

-- Without an entry the payload is dropped.
unfoldable pub push_data :
    PendingOpenStreams → ℕ → BufferedPayload → ℕ → Bool × PendingOpenStreams × ℕ
unfolding lookup insert
push_data o sid payload counter = elim (lookup sid o.streams) [
  | none ↦ (false, o, drop_payload payload counter)
  | some s ↦ (
    true,
    record {
      streams =
          insert sid
            (record s {
              buffered_data = s.buffered_data ++ (payload ∷ []);
              bytes = s.bytes + len payload;
            })
            o.streams;
      total_bytes = o.total_bytes + len payload;
    },
    counter,
  )
]

unfoldable pub take_ready :
    PendingOpenStreams → ℕ → Option (List BufferedPayload × Bool) × PendingOpenStreams
unfolding lookup insert
take_ready o sid = elim (lookup sid o.streams) [
  | none ↦ (none, o)
  | some s ↦ (
    some (s.buffered_data, s.buffered_fin),
    record {
      streams =
          insert sid (record s { buffered_data = []; bytes = 0; buffered_fin = false }) o.streams;
      total_bytes = o.total_bytes - s.bytes;
    },
  )
]

unfoldable pub set_buffered_fin : PendingOpenStreams → ℕ → Bool × PendingOpenStreams
unfolding lookup insert
set_buffered_fin o sid = elim (lookup sid o.streams) [
  | none ↦ (false, o)
  | some s ↦ (true, record o { streams = insert sid (record s { buffered_fin = true }) o.streams })
]

abbrev released_stream :
    PendingOpenStreams → ℕ → PendingOpenStream → Option Bool × PendingOpenStreams
released_stream o sid s = if s.reservation_released then (some false, o) else (
  some true,
  record o { streams = insert sid (record s { reservation_released = true }) o.streams },
)

unfoldable pub release_reservation : PendingOpenStreams → ℕ → Option Bool × PendingOpenStreams
unfolding lookup insert
release_reservation o sid = elim (lookup sid o.streams) [
  | none ↦ (none, o)
  | some s ↦ released_stream o sid s
]
