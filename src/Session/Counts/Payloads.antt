-- ===== src/Session/Counts/Payloads.antt =====
-- Payloads and refusals keep the counts.
use kanotls.Prelude.{ℕ, ◌≡◌, refl, List, some, none, Option-cases, inl, inr, length, ◌&&◌, ◌||◌}
use kanotls.Prelude.Maps.{lookup, insert, remove}
use kanotls.Frame.{Frame}
use kanotls.Pending.{BufferedPayload, new_payload, remove_stream, drop_payloads}
use kanotls.Pending
use kanotls.Pending.Opening.{PendingOpenStreams, insert_new, remove_open, default_stream}
use kanotls.Pending.Opening
use kanotls.Session.{Session}
use kanotls.Session.Store.{store_pending_data, store_pending_open_data}
use kanotls.Session.Replies.{Reason}
use kanotls.Session.Flush.{channel_of, set_channel, sent, full, gone, try_send}
use kanotls.Session.Dispatch.{
  Env, Outcome, count_received, store_or_close, deliver, dispatch_psh, on_psh,
  send_synack_rejection, is_some,
}
use kanotls.Session.Counts.Tables.{IsCounted}
use kanotls.Session.Counts.Steps.{
  either, close_stream-IsCounted, store_pending_data-IsCounted, store_pending_open_data-IsCounted,
}

store_or_close-IsCounted :
    (env : Env) (sid : ℕ) (p : BufferedPayload) (s : Session)
    → IsCounted s
    → IsCounted (store_or_close env sid p s)
unfolding store_or_close
store_or_close-IsCounted env sid p s c =
    let stored = store_pending_data-IsCounted sid p s c in
    either IsCounted (store_pending_data sid p s).0 stored
      (close_stream-IsCounted env.queue_takes sid (store_pending_data sid p s).1 stored)

deliver-IsCounted :
    (env : Env) (sid : ℕ) (bytes : List ℕ) (s : Session)
    → IsCounted s
    → IsCounted (deliver env sid bytes s)
unfolding deliver set_channel
deliver-IsCounted env sid bytes s c =
    let made = new_payload bytes s.buffered_stream_bytes in
    let counted : Session = record s { buffered_stream_bytes = made.1 } in
    let waiting = store_or_close-IsCounted env sid made.0 counted c in
    either IsCounted (env.pending_locked || Pending.contains s.pending_data sid) waiting
      (elim (try_send (channel_of s sid) made.0)
        as (λ r. IsCounted (elim r [
          | sent ch ↦ set_channel sid ch counted
          | full ↦ store_or_close env sid made.0 counted
          | gone ↦ record s { buffered_stream_bytes = Pending.drop_payload made.0 made.1 }
        ])) [ sent ch ↦ c | full ↦ waiting | gone ↦ c ])

dispatch_psh-IsCounted :
    (env : Env) (sid : ℕ) (bytes : List ℕ) (s : Session)
    → IsCounted s
    → IsCounted (dispatch_psh env sid bytes s)
unfolding dispatch_psh
dispatch_psh-IsCounted env sid bytes s c = elim (Option-cases (lookup sid s.streams)) [
  | inl e ↦ rw (e, dispatch_psh) c
  | inr (h, e) ↦
      rw (e, dispatch_psh)
        (either IsCounted (s.is_client && is_some h.synack_waits)
          (store_pending_data-IsCounted sid (new_payload bytes s.buffered_stream_bytes).0
            (record s { buffered_stream_bytes = (new_payload bytes s.buffered_stream_bytes).1 }) c)
          (either IsCounted h.read_closed c (deliver-IsCounted env sid bytes s c)))
]

pub on_psh-IsCounted :
    (env : Env) (frame : Frame) (s : Session) → IsCounted s → IsCounted (on_psh env frame s)
unfolding on_psh count_received
on_psh-IsCounted env frame s c =
    let counted = count_received env (length frame.payload) s in
    either IsCounted
      (Opening.contains s.pending_open_streams frame.stream_id
        && (store_pending_open_data frame.stream_id frame.payload counted).0)
      (store_pending_open_data-IsCounted frame.stream_id frame.payload counted c)
      (dispatch_psh-IsCounted env frame.stream_id frame.payload counted c)

pub rejection-IsCounted :
    (env : Env) (sid : ℕ) (reason : Reason) (s : Session)
    → IsCounted s
    → IsCounted (send_synack_rejection env sid reason s).1
unfolding send_synack_rejection
rejection-IsCounted env sid reason s c = either (λ (r : Outcome). IsCounted r.1) env.queue_takes c c

-- What `insert_new` and `remove_open` make of the entries.
pub inserted_entries :
    (o : PendingOpenStreams) (sid counter : ℕ)
    → lookup sid o.streams ≡ none
    → (insert_new o sid counter).0.streams ≡ insert sid default_stream o.streams
unfolding insert_new remove_open
inserted_entries o sid counter e = rw (e, remove_open) refl

pub removed_entries :
    (o : PendingOpenStreams) (sid counter : ℕ) (e : Opening.PendingOpenStream)
    → lookup sid o.streams ≡ some e
    → (remove_open o sid counter).0.streams ≡ remove sid o.streams
unfolding remove_open
removed_entries o sid counter e found = rw (found, remove_open) refl
