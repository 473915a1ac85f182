-- ===== src/Tests/Sessions.antt =====
-- Runs of a session (crates/session/src/session.rs, server.rs and stream.rs) and the theorems about it at
-- concrete inputs.
use kanotls.Prelude.{map, concat, All}
use kanotls.Prelude.{
  ℕ, ◌*◌, ◌-◌, ◌≡◌, ◌⊎◌, refl, List, [], ◌∷◌, none, some, ok, true, false, if◌then◌else◌, ◌&&◌,
  ◌||◌, not, length, replicate, arith,
}
use kanotls.Prelude.Maps.{lookup, has_key, sum}
use kanotls.Frame.{Frame}
use kanotls.Pending.{BufferedPayload, no_data, new_payload, len}
use kanotls.Pending
use kanotls.Pending.Opening
use kanotls.Pending.Opening.{PendingOpenStream, none_open, default_stream}
use kanotls.Session.{
  Session, StreamHandle, new_channel, goaway_not_received, stream_channel_capacity,
}
use kanotls.Session.Store.{may_store}
use kanotls.Session.Flush.{channel_of, flush_client_pending_stream}
use kanotls.Session.Flush.Accept.{
  flush_pending_accept_stream, flush_round, close_accepted, send_ready, awaiting_writer,
  closed_locally, returned,
}
use kanotls.Session.Close.{unanswered, answered, close_stream}
use kanotls.Session.Flush.Ends.{Ended, Waits, flush_pending_accept_stream_ends}
use kanotls.Session.Dispatch.{Env, handle_frame, deliver}
use kanotls.Session.Counts.Tables.{IsCounted}
use kanotls.Session.Counts.Frames.{handle_frame-IsCounted}
use kanotls.Session.Inbox.{waiting, read_pass, data_read, end_of_stream, must_wait}
use kanotls.Session.Inbox.Order.{first_or, after_first, read_pass_order}
use kanotls.Session.Inbox.Arrival.{IsDelivered, Arrived, handle_psh-Arrived}
use kanotls.Session.Inbox.Race.{deliver_all, read_pass_overtakes}
use kanotls.Session.Inbox.Gap.{with_payload, handle_psh_gap}
use kanotls.Session.Inbox.Synack.{end_known, flush_client_pending_stream-order}
use kanotls.Session.Syn.{Answered, objection, handle_syn-Answered}
use kanotls.Frame.Reader.Reassembly.{IsSendable, wires}
use kanotls.Session.Walk.{control_write_can_pass_through}
use kanotls.Session.Walk.Headers.{any_frame, all_may_pass, control_write_can_pass_through-wires}
use kanotls.Session.Goaway.{note_all, some_below, peer_never_processed-goaways}
use kanotls.Session.{peer_never_processed}

abbrev quiet : Env
quiet = record {
  update_taken = true;
  queue_takes = true;
  pending_locked = false;
  new_stream = some true;
  drawn = 100;
  large_settings = false;
}

abbrev open_handle : StreamHandle
open_handle = record { synack_waits = none; read_closed = false; send_credit = 65535 }

abbrev some_bytes : BufferedPayload
some_bytes = record { bytes = 7 ∷ 8 ∷ []; accounted = true }

abbrev one_frame_waits : PendingOpenStream
one_frame_waits = record {
  buffered_data = some_bytes ∷ [];
  bytes = 2;
  buffered_fin = true;
  reservation_released = false;
}

-- A server with stream 1 open, and stream 3 announced with a payload and its FIN.
abbrev serving : Session
serving = record {
  is_client = false;
  post_script_off = false;
  max_streams_per_session = 256;
  conn_wu_threshold = 1000000;
  streams = (1, open_handle) ∷ [];
  channels = (1, new_channel) ∷ [];
  capacity_stream_count = 1;
  next_id = 1;
  alive = true;
  pending_inbound_streams = 1;
  pending_open_streams = record { streams = (3, one_frame_waits) ∷ []; total_bytes = 2 };
  pending_data = no_data;
  pending_fin = [];
  closing_streams = [];
  buffered_stream_bytes = 2;
  peer_stream_high_water = 3;
  peer_goaway_last_stream_id = goaway_not_received;
  peer_flow_control = true;
  conn_credit = 65535;
  conn_consumed_since_wu = 0;
  settings_received = true;
  outbox = [];
  synacks = [];
}

serving-IsCounted : IsCounted serving
unfolding sum has_key
serving-IsCounted = record {
  streams_map = (refl, tt);
  opening_map = (refl, tt);
  active_count = refl;
  reserved_count = refl;
  within = omega arith;
  narrow = omega arith;
}

abbrev a_syn : Frame
a_syn = record { cmd = 1; stream_id = 5; payload = [] }

abbrev a_payload : Frame
a_payload = record { cmd = 2; stream_id = 1; payload = 9 ∷ 9 ∷ [] }

handle_frame-IsCounted_example : IsCounted (handle_frame quiet a_syn serving).1
handle_frame-IsCounted_example = handle_frame-IsCounted quiet a_syn serving serving-IsCounted

handle_syn-Answered_example :
    Answered quiet 5 serving (objection quiet 5 serving) (handle_frame quiet a_syn serving)
handle_syn-Answered_example = handle_syn-Answered quiet a_syn serving refl

-- The SYN is accepted.
a_syn_accepted : objection quiet 5 serving ≡ none
unfolding objection has_key Opening.contains
a_syn_accepted = refl

-- The stream's receiver is gone: the call waits for the writer.
abbrev deserted : Session
deserted = record serving { channels = (3, record new_channel { receiver_open = false }) ∷ [] }

deserted_waits : (flush_pending_accept_stream 2 unanswered 3 false deserted).0 ≡ awaiting_writer
unfolding flush_pending_accept_stream flush_round close_accepted send_ready close_stream
deserted_waits = refl

deserted_ends :
    (flush_pending_accept_stream 2 answered 3 false deserted).0 ≡ returned closed_locally
unfolding flush_pending_accept_stream flush_round close_accepted send_ready close_stream
deserted_ends = refl

flush_pending_accept_stream_ends_example :
    Ended 3 (flush_pending_accept_stream 2 unanswered 3 false serving)
    ⊎ Waits unanswered 3 serving (flush_pending_accept_stream 2 unanswered 3 false serving)
flush_pending_accept_stream_ends_example =
    flush_pending_accept_stream_ends 0 unanswered 3 false serving (unfold has_key in (refl, tt))

read_pass_order_example :
    ((read_pass (λ t. t) false false 1 false serving).0
      ≡ first_or
          (if false || (not false && false) then end_of_stream else must_wait)
          (waiting serving 1))
    × (waiting (read_pass (λ t. t) false false 1 false serving).2 1
        ≡ after_first (waiting serving 1))
read_pass_order_example = read_pass_order false 1 false serving tt

serving-IsDelivered : IsDelivered 1 serving
unfolding lookup has_key Opening.contains channel_of
serving-IsDelivered = (open_handle, refl, refl, refl, refl, refl)

handle_psh-Arrived_example :
    ((handle_frame quiet a_payload serving).0 ≡ ok tt)
    × Arrived 1 (new_payload (9 ∷ 9 ∷ []) 2).0 serving (handle_frame quiet a_payload serving).1
handle_psh-Arrived_example =
    handle_psh-Arrived quiet a_payload serving refl (unfold has_key in (refl, tt))
      serving-IsDelivered

abbrev full_channel : List (List ℕ)
full_channel = replicate 128 (1 ∷ [])

full_channel-length : length full_channel ≡ stream_channel_capacity
full_channel-length = refl

serving-channel :
    (channel_of serving 1 ≡ new_channel) × (Pending.contains serving.pending_data 1 ≡ false)
unfolding channel_of lookup Pending.contains has_key
serving-channel = (refl, refl)

serving-may_store : may_store serving 1 1 ≡ true
unfolding may_store Pending.contains Pending.stream_count Pending.stream_bytes Pending.stream_frames
    has_key lookup
serving-may_store = refl

read_pass_overtakes_example :
    (read_pass
      (λ t. deliver quiet 1 (2 ∷ []) (deliver_all quiet 1 full_channel t))
      false
      false
      1
      false
      serving).0
    ≡ data_read (2 ∷ [])
read_pass_overtakes_example =
    read_pass_overtakes quiet false 1 false serving full_channel (2 ∷ []) tt refl serving-channel.1
      (rw serving-channel.0 refl) (rw serving-channel.0 refl) full_channel-length serving-may_store

-- The entries of stream 3 and of others are one byte short of the limit.
abbrev nearly_full : Session
nearly_full = record serving {
  pending_open_streams = record {
    streams = (3, one_frame_waits) ∷ [];
    total_bytes = 64 * 1024 * 1024 - 1;
  };
}

abbrev two_bytes : Frame
two_bytes = record { cmd = 2; stream_id = 3; payload = 5 ∷ 6 ∷ [] }

abbrev one_byte : Frame
one_byte = record { cmd = 2; stream_id = 3; payload = 7 ∷ [] }

nearly_full-entry : lookup 3 nearly_full.pending_open_streams.streams ≡ some one_frame_waits
unfolding lookup
nearly_full-entry = refl

handle_psh_gap_example :
    ((handle_frame quiet two_bytes nearly_full).0 ≡ ok tt)
    × ((handle_frame quiet one_byte (handle_frame quiet two_bytes nearly_full).1).0 ≡ ok tt)
    × (lookup 3
          (handle_frame quiet one_byte
            (handle_frame quiet two_bytes nearly_full).1).1.pending_open_streams.streams
        ≡ some (with_payload one_frame_waits (7 ∷ [])))
handle_psh_gap_example =
    handle_psh_gap quiet two_bytes one_byte nearly_full one_frame_waits refl refl refl
      nearly_full-entry refl refl refl

-- Stream 1 with two payloads and a FIN from before the SYNACK.
abbrev before_synack : Session
before_synack = record serving {
  is_client = true;
  pending_data = record {
    queues = (1, record { items = some_bytes ∷ some_bytes ∷ []; bytes = 4 }) ∷ [];
    total_bytes = 4;
  };
  pending_fin = 1 ∷ [];
}

before_synack-channel : channel_of before_synack 1 ≡ new_channel
unfolding channel_of lookup
before_synack-channel = refl

flush_client_pending_stream-order_example :
    (waiting (flush_client_pending_stream true 1 before_synack) 1 ≡ waiting before_synack 1)
    × (end_known (flush_client_pending_stream true 1 before_synack) 1 ≡ end_known before_synack 1)
flush_client_pending_stream-order_example =
    flush_client_pending_stream-order true 1 before_synack (unfold has_key in (refl, tt))
      (rw before_synack-channel refl)

-- GOAWAY with the last stream 3.
abbrev goaway_3 : List ℕ
goaway_3 = 2 ∷ 0 ∷ 0 ∷ 0 ∷ 3 ∷ []

peer_never_processed-goaways_example :
    peer_never_processed (note_all (goaway_3 ∷ []) before_synack) 5 ≡ some_below 5 (goaway_3 ∷ [])
peer_never_processed-goaways_example =
    peer_never_processed-goaways (goaway_3 ∷ []) before_synack 5 refl refl (omega arith)

-- A SYN and a FIN, in one packet.
abbrev syn_and_fin : List Frame
syn_and_fin =
    record { cmd = 1; stream_id = 5; payload = [] }
    ∷ record { cmd = 3; stream_id = 9; payload = [] }
    ∷ []

syn_and_fin-IsSendable : All (All IsSendable) (syn_and_fin ∷ [])
syn_and_fin-IsSendable = (
  (
    (record { cmd_range = omega arith; id_range = omega arith; payload_range = tt }, omega arith),
    (
      (record { cmd_range = omega arith; id_range = omega arith; payload_range = tt }, omega arith),
      tt,
    ),
  ),
  tt,
)

control_write_can_pass_through-wires_example :
    control_write_can_pass_through (map wires (syn_and_fin ∷ [])) (7 ∷ [])
    ≡ (any_frame (concat (syn_and_fin ∷ [])) && all_may_pass (7 ∷ []) (concat (syn_and_fin ∷ [])))
control_write_can_pass_through-wires_example =
    control_write_can_pass_through-wires (7 ∷ []) (syn_and_fin ∷ []) syn_and_fin-IsSendable

syn_passes : control_write_can_pass_through ((1 ∷ 0 ∷ 0 ∷ 0 ∷ 5 ∷ 0 ∷ 0 ∷ []) ∷ []) (7 ∷ []) ≡ true
unfolding control_write_can_pass_through
syn_passes = refl
