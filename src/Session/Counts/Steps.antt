-- ===== src/Session/Counts/Steps.antt =====
-- The operations on the tables keep the counts.
use kanotls.Prelude.{
  ℕ, ◌-◌, refl, List, [], ◌∷◌, Option-cases, Bool, true, false, Bool-cases, inl, inr, if◌then◌else◌,
  not, leb, ltb, length, ◌&&◌,
}
use kanotls.Prelude.Maps.{lookup}
use kanotls.Pending.{BufferedPayload, new_payload, len}
use kanotls.Pending.Opening.{
  PendingOpenStream, PendingOpenStreams, default_stream, push_data, set_buffered_fin,
  release_reservation, insert_new, remove_open,
}
use kanotls.Pending.Opening
use kanotls.Flow.Receive.{saturating_add}
use kanotls.Session.{
  Session, StreamHandle, try_write, unregister_stream_locked, mark_stream_read_closed_locked,
  release_inbound_stream_reservation, member, max_pending_streams, max_pending_stream_bytes,
  max_pending_stream_frames,
}
use kanotls.Session.Close.{
  remember_closing_stream, clear_pending_client_stream_state, remove_stream_state,
  finish_closing_stream, fin_packet, close_stream_fire_and_forget,
}
use kanotls.Session.Store.{
  store_pending_data, store_pending_fin, store_pending_open_data, store_pending_open_fin, is_first,
  may_store,
}
use kanotls.Session.Counts.Tables.{
  Counted, IsCounted, remove_handle, close_handle, update_entry, release_entry,
}

-- What holds of both branches of a test.
pub either {ℓ κ} :
    {A : Type ℓ} (P : A → Type κ) (b : Bool) {x y : A} → P x → P y → P (if b then x else y)
either P true p q = p
either P false p q = q

pub unregister-IsCounted :
    (sid : ℕ) (s : Session) → IsCounted s → IsCounted (unregister_stream_locked sid s)
unfolding unregister_stream_locked
unregister-IsCounted sid s c = elim (Option-cases (lookup sid s.streams)) [
  | inl e ↦ rw (e, unregister_stream_locked) c
  | inr (h, e) ↦ rw (e, unregister_stream_locked) (remove_handle c sid h e)
]

pub mark-IsCounted :
    (sid : ℕ) (s : Session) → IsCounted s → IsCounted (mark_stream_read_closed_locked sid s)
unfolding mark_stream_read_closed_locked
mark-IsCounted sid s c = elim (Option-cases (lookup sid s.streams)) [
  | inl e ↦ rw (e, mark_stream_read_closed_locked) c
  | inr (h, e) ↦ elim (Bool-cases h.read_closed) [
    | inl done ↦ rw (e, mark_stream_read_closed_locked, done) c
    | inr open_for_reading ↦
        rw (e, mark_stream_read_closed_locked, open_for_reading)
          (close_handle c sid h e open_for_reading)
  ]
]

pub try_write-IsCounted :
    (takes : Bool) (packets : List (List ℕ)) (s : Session)
    → IsCounted s
    → IsCounted (try_write takes packets s)
try_write-IsCounted true packets s c = c
try_write-IsCounted false packets s c = c

remember-IsCounted :
    (sid : ℕ) (s : Session) → IsCounted s → IsCounted (remember_closing_stream sid s)
unfolding remember_closing_stream
remember-IsCounted sid s c =
    either IsCounted
      (not (member sid s.closing_streams) && leb max_pending_streams (length s.closing_streams)) c c

pub remove_stream_state-IsCounted :
    (sid : ℕ) (s : Session) → IsCounted s → IsCounted (remove_stream_state sid s)
unfolding remove_stream_state clear_pending_client_stream_state
remove_stream_state-IsCounted sid s c = unregister-IsCounted sid s c

pub close_stream-IsCounted :
    (takes : Bool) (sid : ℕ) (s : Session)
    → IsCounted s
    → IsCounted (close_stream_fire_and_forget takes sid s)
unfolding close_stream_fire_and_forget finish_closing_stream
close_stream-IsCounted takes sid s c =
    try_write-IsCounted takes (fin_packet sid ∷ []) (finish_closing_stream sid s) (
      remove_stream_state-IsCounted sid (remember_closing_stream sid s)
        (remember-IsCounted sid s c))

pub store_pending_data-IsCounted :
    (sid : ℕ) (p : BufferedPayload) (s : Session)
    → IsCounted s
    → IsCounted (store_pending_data sid p s).1
unfolding store_pending_data
store_pending_data-IsCounted sid p s c =
    either (λ (r : Bool × Session). IsCounted r.1) (may_store s sid (len p)) c c

pub store_pending_fin-IsCounted :
    (sid : ℕ) (s : Session) → IsCounted s → IsCounted (store_pending_fin sid s)
unfolding store_pending_fin
store_pending_fin-IsCounted sid s c =
    either IsCounted
      (leb max_pending_streams (length s.pending_fin) && not (member sid s.pending_fin)) c c

push_data-Counted :
    (streams : List (ℕ × StreamHandle)) (active reserved limit sid counter : ℕ)
    (o : PendingOpenStreams) (p : BufferedPayload)
    → Counted streams active o.streams reserved limit
    → Counted streams active (push_data o sid p counter).1.streams reserved limit
unfolding push_data
push_data-Counted streams active reserved limit sid counter o p c =
    elim (Option-cases (lookup sid o.streams)) [
      | inl e ↦ rw (e, push_data) c
      | inr (entry, e) ↦ rw (e, push_data) (update_entry c sid entry _ e refl)
    ]

pub store_pending_open_data-IsCounted :
    (sid : ℕ) (bytes : List ℕ) (s : Session)
    → IsCounted s
    → IsCounted (store_pending_open_data sid bytes s).1
unfolding store_pending_open_data
store_pending_open_data-IsCounted sid bytes s c =
    let P : Bool × Session → Type 0 = λ r. IsCounted r.1 in
    let made = new_payload bytes s.buffered_stream_bytes in
    either P (not (Opening.contains s.pending_open_streams sid)) c (
      either P
        (ltb max_pending_stream_bytes
          (saturating_add s.pending_open_streams.total_bytes (length bytes)))
        c
        (either P (leb max_pending_stream_frames (Opening.stream_frames s.pending_open_streams sid))
          c
          (push_data-Counted s.streams s.capacity_stream_count s.pending_inbound_streams
            s.max_streams_per_session sid made.1 s.pending_open_streams made.0 c)))

set_buffered_fin-Counted :
    (streams : List (ℕ × StreamHandle)) (active reserved limit sid : ℕ) (o : PendingOpenStreams)
    → Counted streams active o.streams reserved limit
    → Counted streams active (set_buffered_fin o sid).1.streams reserved limit
unfolding set_buffered_fin
set_buffered_fin-Counted streams active reserved limit sid o c =
    elim (Option-cases (lookup sid o.streams)) [
      | inl e ↦ rw (e, set_buffered_fin) c
      | inr (entry, e) ↦ rw (e, set_buffered_fin) (update_entry c sid entry _ e refl)
    ]

-- A reservation that is released for the first time is taken off the count.
pub release_reservation-Counted :
    (streams : List (ℕ × StreamHandle)) (active reserved limit sid : ℕ) (o : PendingOpenStreams)
    → Counted streams active o.streams reserved limit
    → Counted streams active
        (release_reservation o sid).1.streams
        (if is_first (release_reservation o sid).0 then reserved - 1 else reserved)
        limit
unfolding release_reservation
release_reservation-Counted streams active reserved limit sid o c =
    elim (Option-cases (lookup sid o.streams)) [
      | inl e ↦ rw (e, release_reservation) c
      | inr (entry, e) ↦ elim (Bool-cases entry.reservation_released) [
        | inl done ↦ rw (e, release_reservation, done) c
        | inr held ↦
            rw (e, release_reservation, held)
              (release_entry c sid entry (record entry { reservation_released = true }) e held refl)
      ]
    ]

-- The FIN of an entry is noted, and its reservation given back if it still has it.
pub store_pending_open_fin-IsCounted :
    (sid : ℕ) (s : Session) → IsCounted s → IsCounted (store_pending_open_fin sid s).1
unfolding store_pending_open_fin release_inbound_stream_reservation
store_pending_open_fin-IsCounted sid s c =
    let P : Bool × Session → Type 0 = λ r. IsCounted r.1 in
    let o = (set_buffered_fin s.pending_open_streams sid).1 in
    let marked =
      set_buffered_fin-Counted s.streams s.capacity_stream_count s.pending_inbound_streams
        s.max_streams_per_session sid s.pending_open_streams c in
    let released =
      release_reservation-Counted s.streams s.capacity_stream_count s.pending_inbound_streams
        s.max_streams_per_session sid o marked in
    either P (set_buffered_fin s.pending_open_streams sid).0
      (elim (Bool-cases (is_first (release_reservation o sid).0)) [
        | inl first ↦ rw first (rw first at released)
        | inr again ↦ rw again (rw again at released)
      ])
      c
