-- ===== src/Session/Counts/Streams.antt =====
-- FIN and SYNACK keep the counts.
use kanotls.Prelude.{ℕ, refl, List, none, Option-cases, Bool, true, inl, inr, not, ◌||◌}
use kanotls.Prelude.Maps.{lookup}
use kanotls.Frame.{Frame}
use kanotls.Pending.{BufferedPayload, new_payload, remove_stream, drop_payloads}
use kanotls.Pending
use kanotls.Session.{Session, member, set_remove}
use kanotls.Session.Close.{clear_closing_stream, or_nothing}
use kanotls.Session.Store.{store_pending_open_fin}
use kanotls.Session.Flush.{
  channel_of, set_channel, send_fin, send_all, push_all_back, is_nil, end_flush,
  flush_client_pending_stream,
}
use kanotls.Session.Dispatch.{
  Env, take_synack, tell_opener, closed_before_synack, fin_open, fin_known, on_fin, on_synack,
}
use kanotls.Session.Counts.Tables.{IsCounted, update_handle}
use kanotls.Session.Counts.Steps.{
  either, unregister-IsCounted, mark-IsCounted, remove_stream_state-IsCounted,
  close_stream-IsCounted, store_pending_fin-IsCounted, store_pending_open_fin-IsCounted,
}

take_synack-IsCounted : (sid : ℕ) (s : Session) → IsCounted s → IsCounted (take_synack sid s).1
unfolding take_synack
take_synack-IsCounted sid s c = elim (Option-cases (lookup sid s.streams)) [
  | inl e ↦ rw (e, take_synack) c
  | inr (h, e) ↦
      rw (e, take_synack) (update_handle c sid h (record h { synack_waits = none }) e refl)
]

fin_open-IsCounted : (sid : ℕ) (s : Session) → IsCounted s → IsCounted (fin_open sid s)
unfolding fin_open clear_closing_stream set_channel
fin_open-IsCounted sid s c = elim (Option-cases (lookup sid s.streams)) [
  | inl e ↦ rw (e, fin_open) c
  | inr (h, e) ↦ rw (e, fin_open) (mark-IsCounted sid s c)
]

fin_known-IsCounted : (sid : ℕ) (s : Session) → IsCounted s → IsCounted (fin_known sid s)
unfolding fin_known clear_closing_stream
fin_known-IsCounted sid s c =
    either IsCounted (store_pending_open_fin sid s).0 (store_pending_open_fin-IsCounted sid s c)
      (either IsCounted (member sid s.closing_streams) c (fin_open-IsCounted sid s c))

tell_opener-IsCounted :
    (listens : Bool) (sid : ℕ) (words : List ℕ) (s : Session)
    → IsCounted s
    → IsCounted (tell_opener listens sid words s)
tell_opener-IsCounted listens sid words s c = either IsCounted listens c c

pub on_fin-IsCounted : (sid : ℕ) (s : Session) → IsCounted s → IsCounted (on_fin sid s)
unfolding on_fin
on_fin-IsCounted sid s c =
    let taken = take_synack sid s in
    let counted = take_synack-IsCounted sid s c in
    let P : Session → Type 0 = IsCounted in
    either P s.is_client
      (elim (Option-cases taken.0) [
        | inl e ↦ rw e (fin_known-IsCounted sid taken.1 counted)
        | inr (listens, e) ↦ rw e (
            store_pending_fin-IsCounted sid (tell_opener listens sid closed_before_synack taken.1)
              (tell_opener-IsCounted listens sid closed_before_synack taken.1 counted))
      ])
      (fin_known-IsCounted sid s c)

end_flush-IsCounted :
    (sid : ℕ) (all_delivered : Bool) (s : Session)
    → IsCounted s
    → IsCounted (end_flush sid all_delivered s)
unfolding end_flush clear_closing_stream set_channel
end_flush-IsCounted sid all_delivered s c =
    either IsCounted all_delivered
      (unregister-IsCounted sid (set_channel sid (send_fin (channel_of s sid)) s) c) c

flush_client_pending_stream-IsCounted :
    (takes : Bool) (sid : ℕ) (s : Session)
    → IsCounted s
    → IsCounted (flush_client_pending_stream takes sid s)
unfolding flush_client_pending_stream set_channel
flush_client_pending_stream-IsCounted takes sid s c =
    let removed = remove_stream s.pending_data sid in
    let taken = record s { pending_data = removed.1; pending_fin = set_remove sid s.pending_fin } in
    let sending = send_all (channel_of s sid) (or_nothing removed.0) in
    let kept =
      set_channel sid sending.0
        (record taken { pending_data = push_all_back removed.1 sid sending.1 }) in
    let dropped =
      set_channel sid sending.0 (record taken {
        buffered_stream_bytes = drop_payloads sending.1 s.buffered_stream_bytes;
      }) in
    elim (Option-cases (lookup sid s.streams)) [
      | inl e ↦ rw (e, flush_client_pending_stream) c
      | inr (h, e) ↦
          rw (e, flush_client_pending_stream)
            (either IsCounted sending.2 (close_stream-IsCounted takes sid dropped c) (
              either IsCounted (member sid s.pending_fin)
                (end_flush-IsCounted sid (is_nil sending.1) kept c) c))
    ]

pub on_synack-IsCounted :
    (env : Env) (frame : Frame) (s : Session) → IsCounted s → IsCounted (on_synack env frame s)
unfolding on_synack
on_synack-IsCounted env frame s c =
    let sid = frame.stream_id in
    let taken = take_synack sid s in
    let counted = take_synack-IsCounted sid s c in
    let told = tell_opener true sid frame.payload taken.1 in
    elim (Option-cases taken.0) [
      | inl e ↦ rw (e, on_synack) c
      | inr (listens, e) ↦
          rw (e, on_synack)
            (either IsCounted (not listens) (remove_stream_state-IsCounted sid taken.1 counted) (
              either IsCounted (Pending.contains s.pending_data sid || member sid s.pending_fin)
                (flush_client_pending_stream-IsCounted env.queue_takes sid told counted) counted))
    ]
