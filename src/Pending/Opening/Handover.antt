-- ===== src/Pending/Opening/Handover.antt =====
-- What was buffered for a stream before it was accepted is handed over once, in order.
use kanotls.Prelude.{
  ℕ, ◌+◌, ◌≡◌, inl, inr, refl, ◌∙◌, List, [], ◌∷◌, ◌++◌, none, some, Bool, true, false, ◌||◌, arith,
  Option-cases, append-nil, append_assoc,
}
use kanotls.Prelude.Maps.{lookup, lookup-insert}
use kanotls.Pending.{BufferedPayload, len}
use kanotls.Pending.Ledger.{lens}
use kanotls.Pending.Opening.{
  PendingOpenStream, PendingOpenStreams, default_stream, remove_open, insert_new, push_data,
  take_ready, set_buffered_fin, release_reservation,
}

-- The frames of a stream in the order in which they come.
abbrev pub push_all : PendingOpenStreams → ℕ → List BufferedPayload → ℕ → PendingOpenStreams
push_all o sid [] counter = o
push_all o sid (p ∷ ps) counter = push_all (push_data o sid p counter).1 sid ps counter

abbrev pub fin_if : Bool → PendingOpenStreams → ℕ → PendingOpenStreams
fin_if true o sid = (set_buffered_fin o sid).1
fin_if false o sid = o

push_data-entry :
    (o : PendingOpenStreams) (sid counter : ℕ) (p : BufferedPayload) (s : PendingOpenStream)
    → lookup sid o.streams ≡ some s
    → lookup sid (push_data o sid p counter).1.streams
      ≡ some (record s { buffered_data = s.buffered_data ++ (p ∷ []); bytes = s.bytes + len p })
unfolding push_data
push_data-entry o sid counter p s e =
    rw (e, push_data) (lookup-insert sid sid _ o.streams ∙ ground arith)

push_all-entry :
    (o : PendingOpenStreams) (sid counter : ℕ) (ps : List BufferedPayload) (s : PendingOpenStream)
    → lookup sid o.streams ≡ some s
    → lookup sid (push_all o sid ps counter).streams
      ≡ some (record s { buffered_data = s.buffered_data ++ ps; bytes = s.bytes + lens ps })
push_all-entry o sid counter [] s e = ground (arith, append-nil s.buffered_data)
push_all-entry o sid counter (p ∷ ps) s e =
    let step = push_data-entry o sid counter p s e in
    ground (
      arith,
      push_all-entry (push_data o sid p counter).1 sid counter ps _ step,
      append_assoc s.buffered_data (p ∷ []) ps,
    )

insert_new-entry :
    (o : PendingOpenStreams) (sid counter : ℕ)
    → lookup sid (insert_new o sid counter).0.streams ≡ some default_stream
unfolding insert_new
insert_new-entry o sid counter =
    lookup-insert sid sid default_stream (remove_open o sid counter).0.streams ∙ ground arith

fin_if-entry :
    (o : PendingOpenStreams) (sid : ℕ) (fin : Bool) (s : PendingOpenStream)
    → lookup sid o.streams ≡ some s
    → lookup sid (fin_if fin o sid).streams
      ≡ some (record s { buffered_fin = fin || s.buffered_fin })
unfolding set_buffered_fin
fin_if-entry o sid true s e =
    ground (arith, lookup-insert sid sid (record s { buffered_fin = true }) o.streams)
fin_if-entry o sid false s e = e

pub take_ready-entry :
    (o : PendingOpenStreams) (sid : ℕ) (s : PendingOpenStream)
    → lookup sid o.streams ≡ some s
    → ((take_ready o sid).0 ≡ some (s.buffered_data, s.buffered_fin))
      × (lookup sid (take_ready o sid).1.streams
          ≡ some (record s { buffered_data = []; bytes = 0; buffered_fin = false }))
unfolding take_ready
take_ready-entry o sid s e =
    rw (e, take_ready) (refl, lookup-insert sid sid _ o.streams ∙ ground arith)

-- What arrives for a stream between its SYN and its acceptance is handed over by the first
-- `take_ready`, all of it and in order, with the FIN mark exactly if a FIN came; the next `take_ready`
-- hands over nothing.
pub take_ready-push_all :
    (o : PendingOpenStreams) (sid counter : ℕ) (ps : List BufferedPayload) (fin : Bool)
    → ((take_ready (fin_if fin (push_all (insert_new o sid counter).0 sid ps counter) sid) sid).0
        ≡ some (ps, fin))
      × ((take_ready
            (take_ready
              (fin_if fin (push_all (insert_new o sid counter).0 sid ps counter) sid)
              sid).1
            sid).0
          ≡ some ([], false))
take_ready-push_all o sid counter ps fin =
    let arrived =
      push_all-entry (insert_new o sid counter).0 sid counter ps default_stream
        (insert_new-entry o sid counter) in
    let marked =
      fin_if-entry (push_all (insert_new o sid counter).0 sid ps counter) sid fin _ arrived in
    let (first, after) = take_ready-entry _ sid _ marked in
    (ground (arith, first), (take_ready-entry _ sid _ after).0)

-- A reservation is released once: a second release answers that it was not the first one, or, like
-- the first, that there is no entry.
pub release_reservation_once :
    (o : PendingOpenStreams) (sid : ℕ)
    → ((release_reservation (release_reservation o sid).1 sid).0
        ≡ (elim (release_reservation o sid).0 [ none ↦ none | some first ↦ some false ]))
unfolding release_reservation
release_reservation_once o sid = elim (Option-cases (lookup sid o.streams)) [
  | inl e ↦ ground arith
  | inr (s, e) ↦
      ground (arith, lookup-insert sid sid (record s { reservation_released = true }) o.streams)
]
