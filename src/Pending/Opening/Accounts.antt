-- ===== src/Pending/Opening/Accounts.antt =====
-- The accounts of the streams that are not accepted yet agree with what is buffered, after
-- every operation.
use kanotls.Prelude.{
  ℕ, ◌+◌, ◌-◌, ◌≤◌, ◌≡◌, inl, inr, refl, [], ◌∷◌, none, some, true, arith, Option-cases, Bool-cases,
}
use kanotls.Prelude.Maps.{
  lookup, insert, remove, IsMap, insert-IsMap, remove-IsMap, sum, lookup-remove, AllValues,
  AllValues-insert, AllValues-remove, AllValues-lookup, sum-insert, sum-remove, weight_at,
}
use kanotls.Pending.{BufferedPayload}
use kanotls.Pending.Ledger.{lens, lens-append}
use kanotls.Pending.Opening.{
  PendingOpenStream, PendingOpenStreams, default_stream, none_open, remove_open, insert_new,
  push_data, take_ready, set_buffered_fin, release_reservation, clear_open,
}

abbrev pub IsCounted : PendingOpenStream → Type 0
IsCounted s = s.bytes ≡ lens s.buffered_data

abbrev pub open_bytes : PendingOpenStream → ℕ
open_bytes s = s.bytes

pub record IsConsistent (o : PendingOpenStreams) : Type 0 where
  pub keys : IsMap o.streams
  pub counted : AllValues IsCounted o.streams
  pub balance : o.total_bytes ≡ sum open_bytes o.streams

-- The entry of a stream is replaced, and the total follows its bytes.
module _ (o : PendingOpenStreams) (v : IsConsistent o) (sid : ℕ) where
  replaced :
      (s : PendingOpenStream) (total : ℕ)
      → IsCounted s
      → total + weight_at open_bytes sid o.streams ≡ o.total_bytes + s.bytes
      → IsConsistent (record { streams = insert sid s o.streams; total_bytes = total })
  replaced s total c e = record {
    keys = insert-IsMap sid s o.streams v.keys;
    counted = AllValues-insert IsCounted sid s o.streams c v.counted;
    balance = omega (arith, v.balance, e, sum-insert open_bytes sid s o.streams);
  }

  held : (s : PendingOpenStream) → lookup sid o.streams ≡ some s → s.bytes ≤ o.total_bytes
  held s e = ground (arith, v.balance, sum-remove open_bytes sid o.streams)

  pub remove_open-IsConsistent : (counter : ℕ) → IsConsistent (remove_open o sid counter).0
  unfolding remove_open
  remove_open-IsConsistent counter = elim (Option-cases (lookup sid o.streams)) [
    | inl e ↦ rw (e, remove_open) v
    | inr (s, e) ↦
        rw (e, remove_open)
          (record {
            keys = remove-IsMap sid o.streams v.keys;
            counted = AllValues-remove IsCounted sid o.streams v.counted;
            balance = ground (arith, v.balance, sum-remove open_bytes sid o.streams);
          })
  ]

  pub push_data-IsConsistent :
      (payload : BufferedPayload) (counter : ℕ) → IsConsistent (push_data o sid payload counter).1
  unfolding push_data
  push_data-IsConsistent payload counter = elim (Option-cases (lookup sid o.streams)) [
    | inl e ↦ rw (e, push_data) v
    | inr (s, e) ↦
        rw (e, push_data)
          (replaced _ _
            (omega (
              arith,
              AllValues-lookup IsCounted sid s o.streams v.counted e,
              lens-append s.buffered_data (payload ∷ []),
            ))
            (ground arith))
  ]

  pub take_ready-IsConsistent : IsConsistent (take_ready o sid).1
  unfolding take_ready
  take_ready-IsConsistent = elim (Option-cases (lookup sid o.streams)) [
    | inl e ↦ rw (e, take_ready) v
    | inr (s, e) ↦ rw (e, take_ready) (replaced _ _ refl (ground (arith, held s e)))
  ]

  pub set_buffered_fin-IsConsistent : IsConsistent (set_buffered_fin o sid).1
  unfolding set_buffered_fin
  set_buffered_fin-IsConsistent = elim (Option-cases (lookup sid o.streams)) [
    | inl e ↦ rw (e, set_buffered_fin) v
    | inr (s, e) ↦
        rw (e, set_buffered_fin)
          (replaced _ _ (AllValues-lookup IsCounted sid s o.streams v.counted e) (ground arith))
  ]

  released_stream-IsConsistent :
      (s : PendingOpenStream)
      → lookup sid o.streams ≡ some s
      → IsConsistent
          (record o { streams = insert sid (record s { reservation_released = true }) o.streams })
  released_stream-IsConsistent s e =
      replaced _ _ (AllValues-lookup IsCounted sid s o.streams v.counted e) (ground arith)

  pub release_reservation-IsConsistent : IsConsistent (release_reservation o sid).1
  unfolding release_reservation
  release_reservation-IsConsistent = elim (Option-cases (lookup sid o.streams)) [
    | inl e ↦ rw (e, release_reservation) v
    | inr (s, e) ↦ elim (Bool-cases s.reservation_released) [
      | inl done ↦ rw (e, release_reservation) (rw done v)
      | inr first ↦ rw (e, release_reservation) (rw first (released_stream-IsConsistent s e))
    ]
  ]

  default_stream-IsConsistent :
      lookup sid o.streams ≡ none
      → IsConsistent (record o { streams = insert sid default_stream o.streams })
  default_stream-IsConsistent e = replaced _ _ refl (ground arith)

pub insert_new-IsConsistent :
    (o : PendingOpenStreams) (v : IsConsistent o) (sid counter : ℕ)
    → IsConsistent (insert_new o sid counter).0
unfolding insert_new remove_open
insert_new-IsConsistent o v sid counter = elim (Option-cases (lookup sid o.streams)) [
  | inl e ↦ rw (e, insert_new, remove_open) (default_stream-IsConsistent o v sid e)
  | inr (s, e) ↦
      let w : IsConsistent
          (record { streams = remove sid o.streams; total_bytes = o.total_bytes - s.bytes }) =
        rw (e, remove_open) at (remove_open-IsConsistent o v sid counter) in
      rw (e, insert_new, remove_open)
        (default_stream-IsConsistent _ w sid
          (ground (arith, lookup-remove sid sid o.streams v.keys)))
]

pub none_open-IsConsistent : IsConsistent none_open
unfolding sum
none_open-IsConsistent = record { keys = tt; counted = tt; balance = refl }

-- Every operation on the streams that are not accepted yet keeps the accounts right: each stream's
-- bytes are those of what it buffers, and the total is the sum over the streams. So no subtraction from
-- the total goes below zero.
pub operations-IsConsistent :
    (o : PendingOpenStreams) (sid counter : ℕ) (payload : BufferedPayload)
    → IsConsistent o
    → IsConsistent (insert_new o sid counter).0
      × IsConsistent (remove_open o sid counter).0
      × IsConsistent (clear_open o counter).0
      × IsConsistent (push_data o sid payload counter).1
      × IsConsistent (take_ready o sid).1
      × IsConsistent (set_buffered_fin o sid).1
      × IsConsistent (release_reservation o sid).1
      × ((s : PendingOpenStream) → lookup sid o.streams ≡ some s → s.bytes ≤ o.total_bytes)
operations-IsConsistent o sid counter payload v = (
  insert_new-IsConsistent o v sid counter,
  remove_open-IsConsistent o v sid counter,
  unfold clear_open sum in record { keys = tt; counted = tt; balance = refl },
  push_data-IsConsistent o v sid payload counter,
  take_ready-IsConsistent o v sid,
  set_buffered_fin-IsConsistent o v sid,
  release_reservation-IsConsistent o v sid,
  held o v sid,
)
