-- ===== src/Session/Close.antt =====
-- crates/session/src/session.rs: tombstones, and what is forgotten with a stream.
use kanotls.Prelude.{
  ℕ, List, [], ◌∷◌, ◌++◌, Option, none, some, Bool, true, false, if◌then◌else◌, leb, ◌==◌, ◌&&◌,
  not, length,
}
use kanotls.Prelude.Maps.{lookup}
use kanotls.Prelude.Bytes.{u32_to_be_bytes}
use kanotls.Frame.{cmd_fin}
use kanotls.Pending.{BufferedPayload, drop_payloads, remove_stream}
use kanotls.Pending.Opening.{is_empty}
use kanotls.Session.{
  Session, StreamHandle, Channel, max_pending_streams, member, set_insert, set_remove, try_write,
  unregister_stream_locked, wrapping_sub,
}

-- `closing.iter().next()`: any element.
abbrev pub without_one : List ℕ → List ℕ
without_one [] = []
without_one (x ∷ xs) = xs

unfoldable pub remember_closing_stream : ℕ → Session → Session
remember_closing_stream sid s =
    if not (member sid s.closing_streams) && leb max_pending_streams (length s.closing_streams)
    then record s { closing_streams = set_insert sid (without_one s.closing_streams) }
    else record s { closing_streams = set_insert sid s.closing_streams }

unfoldable pub clear_closing_stream : ℕ → Session → Bool × Session
clear_closing_stream sid s =
    (member sid s.closing_streams, record s { closing_streams = set_remove sid s.closing_streams })

-- The payloads that waited are dropped.
abbrev pub or_nothing : Option (List BufferedPayload) → List BufferedPayload
or_nothing none = []
or_nothing (some ps) = ps

unfoldable pub clear_pending_client_stream_state : ℕ → Session → Session
unfolding remove_stream drop_payloads
clear_pending_client_stream_state sid s =
    let removed = remove_stream s.pending_data sid in
    record s {
      pending_data = removed.1;
      buffered_stream_bytes = drop_payloads (or_nothing removed.0) s.buffered_stream_bytes;
      pending_fin = set_remove sid s.pending_fin;
    }

unfoldable pub remove_stream_state : ℕ → Session → Session
unfolding unregister_stream_locked clear_pending_client_stream_state
remove_stream_state sid s = clear_pending_client_stream_state sid (unregister_stream_locked sid s)

unfoldable pub finish_closing_stream : ℕ → Session → Session
unfolding remember_closing_stream remove_stream_state
finish_closing_stream sid s = remove_stream_state sid (remember_closing_stream sid s)

-- `Frame::fin(sid).encode()`
unfoldable pub fin_packet : ℕ → List ℕ
fin_packet sid = cmd_fin ∷ (u32_to_be_bytes sid ++ (0 ∷ 0 ∷ []))

unfoldable pub close_stream_fire_and_forget : Bool → ℕ → Session → Session
unfolding finish_closing_stream fin_packet
close_stream_fire_and_forget queue_takes sid s =
    try_write queue_takes (fin_packet sid ∷ []) (finish_closing_stream sid s)

-- What becomes of packets that a task hands to the writer, whose flush it awaits: there is never room for
-- them, they are queued and never answered, they are queued and answered, or the writer is closed.
pub data Submission : Type 0 where
  no_room : Submission
  unanswered : Submission
  answered : Submission
  writer_closed : Submission

-- Whether the call returns. The answer itself is ignored by the callers here.
abbrev pub returns : Submission → Bool
returns no_room = false
returns unanswered = false
returns answered = true
returns writer_closed = true

abbrev is_queued : Submission → Bool
is_queued no_room = false
is_queued unanswered = true
is_queued answered = true
is_queued writer_closed = false

-- `close_stream` waits until its FIN is flushed: whether it returns, and the session as it leaves it or
-- as it is while it waits.
unfoldable pub close_stream : Submission → ℕ → Session → Bool × Session
unfolding finish_closing_stream fin_packet
close_stream w sid s =
    (returns w, try_write (is_queued w) (fin_packet sid ∷ []) (finish_closing_stream sid s))

-- A handle whose receivers are all gone.
unfoldable pub stream_handle_is_orphaned : List (ℕ × Channel) → ℕ → StreamHandle → Bool
unfolding lookup
stream_handle_is_orphaned channels sid handle =
    let gone : Bool = elim (lookup sid channels) [ none ↦ true | some c ↦ not c.receiver_open ] in
    let unheard : Bool = elim handle.synack_waits [ none ↦ true | some listens ↦ not listens ] in
    gone && unheard

-- `retain`: the handles that stay, and the count.
unfoldable pub prune_orphaned :
    List (ℕ × Channel) → List (ℕ × StreamHandle) → ℕ → List (ℕ × StreamHandle) × ℕ
unfolding stream_handle_is_orphaned
prune_orphaned channels [] count = ([], count)
prune_orphaned channels ((sid, handle) ∷ rest) count =
    let orphaned = stream_handle_is_orphaned channels sid handle in
    let later =
      prune_orphaned channels rest
        (if orphaned && not handle.read_closed then wrapping_sub count 1 else count) in
    ((if orphaned then later.0 else (sid, handle) ∷ later.0), later.1)

unfoldable pub prune_orphaned_streams_locked : Session → Session
unfolding prune_orphaned
prune_orphaned_streams_locked s =
    let kept = prune_orphaned s.channels s.streams s.capacity_stream_count in
    record s { streams = kept.0; capacity_stream_count = kept.1 }

-- Whether the idle timer may end the session.
unfoldable pub is_idle_timeout_eligible : Session → Bool × Session
unfolding prune_orphaned_streams_locked
is_idle_timeout_eligible s =
    let pruned = prune_orphaned_streams_locked s in
    (
      (pruned.capacity_stream_count == 0)
          && ((pruned.pending_inbound_streams == 0) && is_empty pruned.pending_open_streams),
      pruned,
    )
