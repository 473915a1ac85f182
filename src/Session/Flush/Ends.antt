-- ===== src/Session/Flush/Ends.antt =====
-- The rounds of `flush_pending_accept_stream` come to an end.
use kanotls.Prelude.{
  ℕ, suc, ◌≡◌, refl, ◌∙◌, ◌⊎◌, inl, inr, List, [], ◌∷◌, ◌++◌, leb, length, none, some, Option-cases,
  Bool, true, false, Bool-cases, ◌&&◌, ◌||◌, not,
}
use kanotls.Prelude.Maps.{lookup, IsMap, insert-IsMap}
use kanotls.Pending.{BufferedPayload, drop_payloads}
use kanotls.Pending.Opening.{PendingOpenStream, PendingOpenStreams, take_ready}
use kanotls.Pending.Opening.Handover.{take_ready-entry}
use kanotls.Session.{
  Session, Channel, stream_channel_capacity, unregister_stream_locked,
  mark_stream_read_closed_locked,
}
use kanotls.Session.Close.{Submission, returns, close_stream}
use kanotls.Session.Flush.{channel_of, set_channel, send_fin, is_nil, try_send}
use kanotls.Session.Flush.Accept.{
  PendingAcceptFlushResult, still_open, closed_locally, RoundEnd, returned, next_round,
  awaiting_writer, send_ready, store_all, end_accepted, close_accepted, flush_round,
  flush_pending_accept_stream,
}
use kanotls.Session.Flush.Entries.{
  entries, unregister-entries, mark-entries, close_stream-entries, store_all-entries,
  forget_entry-gone, forget_after,
}

-- The entry is there, and nothing is ready in it.
abbrev Emptied : ℕ → Session → Type 0
Emptied sid s =
    (e : PendingOpenStream) × (lookup sid (entries s) ≡ some e)
    × (e.buffered_data ≡ [])
    × (e.buffered_fin ≡ false)
    × IsMap (entries s)

abbrev pub Ended : ℕ → RoundEnd × Session → Type 0
Ended sid (how, s) =
    (r : PendingAcceptFlushResult) × (how ≡ returned r) × (lookup sid (entries s) ≡ none)

-- `close_stream` waits, which it does only without a receiver and for a writer that does not answer.
abbrev pub Waits : Submission → ℕ → Session → RoundEnd × Session → Type 0
Waits w sid s (how, s') =
    (how ≡ awaiting_writer) × (returns w ≡ false) × ((channel_of s sid).receiver_open ≡ false)

abbrev round_of : Submission → ℕ → Bool → Session → RoundEnd × Session
round_of w sid delivered s = ((flush_round w sid delivered s).0, (flush_round w sid delivered s).2)

send_ready-lost :
    (c : Channel) (overflow ps : List BufferedPayload)
    → (send_ready c overflow ps).2 ≡ true
    → c.receiver_open ≡ false
unfolding send_ready try_send
send_ready-lost c overflow [] e = cc
send_ready-lost c overflow (p ∷ ps) e = elim (Bool-cases c.receiver_open) [
  | inr closed ↦ closed
  | inl here ↦ elim (Bool-cases (leb stream_channel_capacity (length c.items))) [
    | inl no_place ↦
        send_ready-lost c (overflow ++ (p ∷ [])) ps (rw (send_ready, try_send, here, no_place) at e)
    | inr place ↦
        let wrong : true ≡ false =
          send_ready-lost (record c { items = c.items ++ (p ∷ []); receiver_open = true }) overflow
            ps (rw (send_ready, try_send, here, place) at e) in
        cc
  ]
]

close_accepted_ends :
    (w : Submission) (sid : ℕ) (s s' : Session)
    → IsMap (entries s)
    → entries s' ≡ entries s
    → Ended sid (close_accepted w sid s')
      ⊎ (((close_accepted w sid s').0 ≡ awaiting_writer) × (returns w ≡ false))
unfolding close_accepted close_stream
close_accepted_ends w sid s s' m e = elim (Bool-cases (returns w)) [
  | inl back ↦
      rw (close_accepted, back)
        (inl (
          closed_locally,
          refl,
          forget_after sid s (close_stream w sid s').1 m (close_stream-entries w sid s' ∙ e),
        ))
  | inr stays ↦ rw (close_accepted, stays) (inr (refl, refl))
]

end_accepted-gone :
    (delivered : Bool) (sid : ℕ) (s : Session)
    → IsMap (entries s)
    → lookup sid (entries (end_accepted delivered sid s).1) ≡ none
unfolding end_accepted set_channel
end_accepted-gone true sid s m =
    let told = set_channel sid (send_fin (channel_of s sid)) s in
    forget_after sid s (mark_stream_read_closed_locked sid told) m (mark-entries sid told)
end_accepted-gone false sid s m =
    let told = set_channel sid (send_fin (channel_of s sid)) s in
    forget_after sid s (unregister_stream_locked sid told) m (unregister-entries sid told)

take_ready-IsMap :
    (o : PendingOpenStreams) (sid : ℕ) → IsMap o.streams → IsMap (take_ready o sid).1.streams
unfolding take_ready
take_ready-IsMap o sid m = elim (Option-cases (lookup sid o.streams)) [
  | inl e ↦ rw (e, take_ready) m
  | inr (entry, e) ↦ rw (e, take_ready) (insert-IsMap sid _ o.streams m)
]

round_empty :
    (w : Submission) (sid : ℕ) (delivered : Bool) (s : Session)
    → Emptied sid s
    → Ended sid (round_of w sid delivered s)
unfolding flush_round
round_empty w sid delivered s (e, found, no_bytes, no_fin, m) =
    let o = s.pending_open_streams in
    let taken = (take_ready-entry o sid e found).0 in
    let drained : Session = record s { pending_open_streams = (take_ready o sid).1 } in
    rw (flush_round, taken, no_bytes, no_fin)
      (still_open, refl, forget_entry-gone sid drained (take_ready-IsMap o sid m))

-- A round ends, or leaves an empty entry.
round_entry :
    (w : Submission) (sid : ℕ) (delivered : Bool) (s : Session) (e : PendingOpenStream)
    → lookup sid (entries s) ≡ some e
    → IsMap (entries s)
    → Ended sid (round_of w sid delivered s)
      ⊎ (Waits w sid s (round_of w sid delivered s)
          ⊎ (((flush_round w sid delivered s).0 ≡ next_round)
              × Emptied sid (flush_round w sid delivered s).2))
unfolding flush_round set_channel
round_entry w sid delivered s e found m =
    let o = s.pending_open_streams in
    let (taken, left) = take_ready-entry o sid e found in
    let drained : Session = record s { pending_open_streams = (take_ready o sid).1 } in
    let sending = send_ready (channel_of s sid) [] e.buffered_data in
    let handed = set_channel sid sending.0 drained in
    let now = delivered || not (is_nil e.buffered_data) in
    let stored = store_all sid sending.1 handed in
    let kept : entries stored ≡ entries drained = store_all-entries sid sending.1 handed in
    let m' = take_ready-IsMap o sid m in
    elim (Bool-cases (is_nil e.buffered_data && not e.buffered_fin)) [
      | inl nothing ↦
          rw (flush_round, taken, nothing)
            (inl (still_open, refl, forget_entry-gone sid drained m'))
      | inr something ↦ elim (Bool-cases sending.2) [
        | inl lost ↦
            let dropped : Session = record handed {
              buffered_stream_bytes = drop_payloads sending.1 s.buffered_stream_bytes;
            } in
            elim (close_accepted_ends w sid drained dropped m' refl) [
              | inl done ↦ rw (flush_round, taken, something, lost) (inl done)
              | inr (waits, stays) ↦
                  rw (flush_round, taken, something, lost)
                    (inr (
                      inl
                        (waits, stays, send_ready-lost (channel_of s sid) [] e.buffered_data lost)))
            ]
        | inr there ↦ elim (Bool-cases e.buffered_fin) [
          | inl fin ↦
              rw (flush_round, taken, something, there, fin)
                (inl (
                  (end_accepted now sid stored).0,
                  refl,
                  end_accepted-gone now sid stored (rw kept m'),
                ))
          | inr more ↦
              rw (flush_round, taken, something, there, more)
                (inr (
                  inr (
                    refl,
                    (
                      record e { buffered_data = []; bytes = 0; buffered_fin = false },
                      rw kept left,
                      refl,
                      refl,
                      rw kept m',
                    ),
                  )))
        ]
      ]
    ]

round_none :
    (w : Submission) (sid : ℕ) (delivered : Bool) (s : Session)
    → lookup sid (entries s) ≡ none
    → Ended sid (round_of w sid delivered s)
unfolding flush_round take_ready
round_none w sid delivered s missing =
    let nothing : (take_ready s.pending_open_streams sid).0 ≡ none =
      rw (take_ready, missing) refl in
    rw (flush_round, nothing) (still_open, refl, missing)

flush_once :
    (fuel : ℕ) (w : Submission) (sid : ℕ) (delivered : Bool) (s : Session)
    (r : PendingAcceptFlushResult)
    → (flush_round w sid delivered s).0 ≡ returned r
    → flush_pending_accept_stream (suc fuel) w sid delivered s
      ≡ (returned r, (flush_round w sid delivered s).2)
unfolding flush_pending_accept_stream
flush_once fuel w sid delivered s r e = rw (flush_pending_accept_stream, e) refl

flush_waits :
    (fuel : ℕ) (w : Submission) (sid : ℕ) (delivered : Bool) (s : Session)
    → (flush_round w sid delivered s).0 ≡ awaiting_writer
    → (flush_pending_accept_stream (suc fuel) w sid delivered s).0 ≡ awaiting_writer
unfolding flush_pending_accept_stream
flush_waits fuel w sid delivered s e = rw (flush_pending_accept_stream, e) refl

flush_again :
    (fuel : ℕ) (w : Submission) (sid : ℕ) (delivered : Bool) (s : Session)
    → (flush_round w sid delivered s).0 ≡ next_round
    → flush_pending_accept_stream (suc fuel) w sid delivered s
      ≡ flush_pending_accept_stream fuel w sid
          (flush_round w sid delivered s).1
          (flush_round w sid delivered s).2
unfolding flush_pending_accept_stream
flush_again fuel w sid delivered s e = rw (flush_pending_accept_stream, e) refl

flush-Ended :
    (fuel : ℕ) (w : Submission) (sid : ℕ) (delivered : Bool) (s : Session)
    → Ended sid (round_of w sid delivered s)
    → Ended sid (flush_pending_accept_stream (suc fuel) w sid delivered s)
flush-Ended fuel w sid delivered s (r, e, gone) =
    rw (flush_once fuel w sid delivered s r e) (r, refl, gone)

-- When nothing arrives meanwhile and the entries have each id once, the loop that hands a stream's
-- early payloads to the accepted stream comes to a stop within two rounds, whatever channel and
-- payloads it finds. It returns a result, and the stream's entry is gone then; or it waits in
-- `close_stream`, which happens only if the stream's receiver is gone and the writer never answers
-- for the FIN.
pub flush_pending_accept_stream_ends :
    (fuel : ℕ) (w : Submission) (sid : ℕ) (delivered : Bool) (s : Session)
    → IsMap (entries s)
    → Ended sid (flush_pending_accept_stream (suc (suc fuel)) w sid delivered s)
      ⊎ Waits w sid s (flush_pending_accept_stream (suc (suc fuel)) w sid delivered s)
flush_pending_accept_stream_ends fuel w sid delivered s m =
    elim (Option-cases (lookup sid (entries s))) [
      | inl missing ↦
          inl (flush-Ended (suc fuel) w sid delivered s (round_none w sid delivered s missing))
      | inr (entry, found) ↦ elim (round_entry w sid delivered s entry found m) [
        | inl once ↦ inl (flush-Ended (suc fuel) w sid delivered s once)
        | inr (inl (waits, stays, closed)) ↦
            inr (flush_waits (suc fuel) w sid delivered s waits, stays, closed)
        | inr (inr (again, emptied)) ↦
            let next = (flush_round w sid delivered s).2 in
            let now = (flush_round w sid delivered s).1 in
            rw (flush_again (suc fuel) w sid delivered s again)
              (inl (flush-Ended fuel w sid now next (round_empty w sid now next emptied)))
      ]
    ]
