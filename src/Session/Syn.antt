-- ===== src/Session/Syn.antt =====
-- What becomes of a SYN.
use kanotls.Prelude.{
  ℕ, ◌+◌, ◌-◌, ◌≡◌, refl, ap, ◌∙◌, List, [], ◌∷◌, ◌++◌, some, none, ok, err, Option, Option-cases,
  Bool, true, false, Bool-cases, inl, inr, if◌then◌else◌, arith, not, leb, max, ◌||◌,
}
use kanotls.Prelude.Maps.{lookup, insert, remove, has_key, lookup-insert, lookup-no_key}
use kanotls.Frame.{Frame, cmd_syn}
use kanotls.Pending.Opening.{
  PendingOpenStream, PendingOpenStreams, default_stream, insert_new, remove_open,
}
use kanotls.Pending.Opening
use kanotls.Flow.Receive.{saturating_add}
use kanotls.Session.{Session, try_reserve_inbound_stream, release_inbound_stream_reservation}
use kanotls.Session.Replies.{
  Reason, settings_not_received, duplicate_stream_id, max_streams_reached, server_overloaded,
  not_accepted, synack_rejection,
}
use kanotls.Session.Dispatch.{
  Env, Outcome, rejection_not_queued, send_synack_rejection, open_inbound, on_syn, handle_frame,
}
use kanotls.Session.Counts.Payloads.{inserted_entries, removed_entries}

-- The first objection to a SYN, if there is one.
unfoldable pub objection : Env → ℕ → Session → Option Reason
unfolding has_key Opening.contains
objection env sid s =
    if not s.settings_received
    then some settings_not_received
    else if has_key sid s.streams || Opening.contains s.pending_open_streams sid
    then some duplicate_stream_id
    else if leb s.max_streams_per_session
        (saturating_add s.capacity_stream_count s.pending_inbound_streams)
    then some max_streams_reached
    else elim env.new_stream [
      | none ↦ some not_accepted
      | some accepted ↦ if accepted then none else some server_overloaded
    ]

-- A SYN without objection makes an entry that holds a reservation. Any other leaves the entries and the
-- reservations as they are; its opener is told the reason, or the full control queue is an error.
abbrev pub Answered : Env → ℕ → Session → Option Reason → Outcome → Type 0
Answered env sid s none r =
    (r.0 ≡ ok tt)
    × (r.1.outbox ≡ s.outbox)
    × (r.1.pending_open_streams.streams ≡ insert sid default_stream s.pending_open_streams.streams)
    × (r.1.pending_inbound_streams ≡ s.pending_inbound_streams + 1)
Answered env sid s (some reason) r =
    (r.0 ≡ (if env.queue_takes then ok tt else err rejection_not_queued))
    × (r.1.outbox
        ≡ (if env.queue_takes then s.outbox ++ (synack_rejection sid reason ∷ []) else s.outbox))
    × (r.1.pending_open_streams.streams ≡ s.pending_open_streams.streams)
    × (r.1.pending_inbound_streams ≡ s.pending_inbound_streams)

rejection-Answered :
    (env : Env) (sid : ℕ) (reason : Reason) (s t : Session)
    → t.outbox ≡ s.outbox
    → t.pending_open_streams.streams ≡ s.pending_open_streams.streams
    → t.pending_inbound_streams ≡ s.pending_inbound_streams
    → Answered env sid s (some reason) (send_synack_rejection env sid reason t)
unfolding send_synack_rejection
rejection-Answered env sid reason s t o p n = elim (Bool-cases env.queue_takes) [
  | inl takes ↦ rw (send_synack_rejection, takes) (refl, rw o refl, p, n)
  | inr full ↦ rw (send_synack_rejection, full) (refl, o, p, n)
]

remove-insert {ℓ} :
    {V : Type ℓ} (k : ℕ) (v : V) (m : List (ℕ × V))
    → lookup k m ≡ none
    → remove k (insert k v m) ≡ m
unfolding lookup insert remove
remove-insert k v [] e = ground arith
remove-insert k v ((j, w) ∷ m) e = ground (arith, remove-insert k v m)

open_inbound-Answered :
    (env : Env) (sid : ℕ) (s : Session)
    → lookup sid s.pending_open_streams.streams ≡ none
    → Answered env sid s
        (elim env.new_stream [
          | none ↦ some not_accepted
          | some accepted ↦ if accepted then none else some server_overloaded
        ])
        (open_inbound env sid
          (record s { pending_inbound_streams = s.pending_inbound_streams + 1 }))
unfolding open_inbound release_inbound_stream_reservation
open_inbound-Answered env sid s missing =
    let o = s.pending_open_streams in
    let inserted = insert_new o sid s.buffered_stream_bytes in
    let removed = remove_open inserted.0 sid inserted.1 in
    let made = inserted_entries o sid s.buffered_stream_bytes missing in
    let found : lookup sid (insert sid default_stream o.streams) ≡ some default_stream =
      ground (arith, lookup-insert sid sid default_stream o.streams) in
    let gone : removed.0.streams ≡ o.streams =
      removed_entries inserted.0 sid inserted.1 default_stream (rw made found)
      ∙ ap (λ m. remove sid m) made
      ∙ remove-insert sid default_stream o.streams missing in
    let undone : Session = record s {
      pending_open_streams = removed.0;
      buffered_stream_bytes = removed.1;
      pending_inbound_streams = s.pending_inbound_streams + 1 - 1;
    } in
    let same : s.pending_inbound_streams + 1 - 1 ≡ s.pending_inbound_streams = omega arith in
    elim (Option-cases env.new_stream) [
      | inl e ↦
          rw (open_inbound, e) (rejection-Answered env sid not_accepted s undone refl gone same)
      | inr (accepted, e) ↦ elim (Bool-cases accepted) [
        | inl taken ↦ rw (open_inbound, e, taken) (refl, refl, made, refl)
        | inr refused ↦
            rw (open_inbound, e, refused)
              (rejection-Answered env sid server_overloaded s undone refl gone same)
      ]
    ]

-- Two choices by the same test.
either_both {ℓ κ μ} :
    {A : Type ℓ} {B : Type κ} (P : A → B → Type μ) (b : Bool) {x y : A} {x' y' : B}
    → (b ≡ true → P x x')
    → (b ≡ false → P y y')
    → P (if b then x else y) (if b then x' else y')
either_both P true p q = p refl
either_both P false p q = q refl

on_syn-Answered :
    (env : Env) (sid : ℕ) (s : Session)
    → Answered env sid s (objection env sid s) (on_syn env sid s)
unfolding on_syn objection try_reserve_inbound_stream Opening.contains
on_syn-Answered env sid s0 =
    let s : Session = record s0 { peer_stream_high_water = max s0.peer_stream_high_water sid } in
    let P : Option Reason → Outcome → Type 0 = Answered env sid s0 in
    let taken = has_key sid s.streams || Opening.contains s.pending_open_streams sid in
    let room = saturating_add s.capacity_stream_count s.pending_inbound_streams in
    let reject : (reason : Reason) → P (some reason) (send_synack_rejection env sid reason s) =
      λ reason. rejection-Answered env sid reason s0 s refl refl refl in
    either_both P (not s.settings_received) (λ _. reject settings_not_received)
      (λ _.
        either_both P taken (λ _. reject duplicate_stream_id)
          (λ new. elim (Bool-cases (leb s.max_streams_per_session room)) [
            | inl none_left ↦ rw none_left (reject max_streams_reached)
            | inr left ↦ rw left (
                open_inbound-Answered env sid s
                  (lookup-no_key sid s.pending_open_streams.streams (ground (arith, new))))
          ]))

-- A SYN that nothing speaks against makes an entry with a reservation and no answer. Otherwise the
-- entries and the reservations are as before, and the first objection, of missing settings, a known
-- id, the limit, no taker and a taker that refuses, is queued for the peer; if the queue is full,
-- the frame ends in an error.
pub handle_syn-Answered :
    (env : Env) (frame : Frame) (s : Session)
    → frame.cmd ≡ cmd_syn
    → Answered env frame.stream_id s (objection env frame.stream_id s) (handle_frame env frame s)
unfolding handle_frame
handle_syn-Answered env frame s syn = rw (handle_frame, syn) (on_syn-Answered env frame.stream_id s)
