-- ===== src/Pending/Streams.antt =====
-- What a reader of one stream sees: a queue, first in and first out, that no other stream's traffic
-- touches. And the shared counter: each payload leaves it once, however it goes.
use kanotls.Prelude.{
  ℕ, ◌+◌, ◌-◌, ◌^◌, ◌<◌, ◌≡◌, inl, inr, refl, ap, List, [], ◌∷◌, ◌++◌, Option, none, some, Bool,
  true, false, if◌then◌else◌, ◌==◌, not, length, All, arith, Option-cases, List-cases,
}
use kanotls.Prelude.Maps.{
  lookup, has_key, IsMap, sum, lookup-insert, lookup-remove, AllValues, AllValues-lookup,
  lookup-key, lookup-no_key,
}
use kanotls.Pending.{
  BufferedPayload, len, StreamQueue, PendingData, no_data, or_default, remove_stream, clear,
  contains, drop_payload, into_bytes, new_payload, push_back, pop_front, pop_items, put_rest,
  drop_payloads, drop_queues, stream_bytes, stream_frames,
}
use kanotls.Pending.Ledger.{IsBalanced, IsQueue, lens, bytes_of}

-- The payloads that wait for one stream.
unfoldable pub view : PendingData → ℕ → List BufferedPayload
view d sid = (or_default (lookup sid d.queues)).items

-- A payload goes to the end of its stream's queue, and no other queue changes.
pub view-push_back :
    (d : PendingData) (sid j : ℕ) (payload : BufferedPayload)
    → view (push_back d sid payload) j ≡ (if sid == j then view d j ++ (payload ∷ []) else view d j)
unfolding view push_back
view-push_back d sid j payload = ground (
  arith,
  lookup-insert sid j
      (record {
        items = (or_default (lookup sid d.queues)).items ++ (payload ∷ []);
        bytes = (or_default (lookup sid d.queues)).bytes + len payload;
      })
      d.queues,
  ap (λ (t : ℕ). lookup t d.queues) {x = sid} {y = j},
)

abbrev pub head? : List BufferedPayload → Option BufferedPayload
head? [] = none
head? (p ∷ ps) = some p

abbrev pub tail : List BufferedPayload → List BufferedPayload
tail [] = []
tail (p ∷ ps) = ps

abbrev pub is_nil : List BufferedPayload → Bool
is_nil [] = true
is_nil (p ∷ ps) = false

view-put_rest :
    (d : PendingData) (sid j n : ℕ) (ps : List BufferedPayload) (total : ℕ)
    → IsMap d.queues
    → view (record { queues = put_rest sid ps n d.queues; total_bytes = total }) j
      ≡ (if sid == j then ps else view d j)
unfolding view
view-put_rest d sid j n [] total v = ground (arith, lookup-remove sid j d.queues v)
view-put_rest d sid j n (p ∷ ps) total v =
    ground (arith, lookup-insert sid j (record { items = p ∷ ps; bytes = n }) d.queues)

module _ (d : PendingData) (v : IsBalanced d) (sid : ℕ) where
  has_entry : (q : StreamQueue) → lookup sid d.queues ≡ some q → has_key sid d.queues ≡ true
  has_entry q e = ground (arith, lookup-no_key sid d.queues)

  view-some : (q : StreamQueue) → lookup sid d.queues ≡ some q → view d sid ≡ q.items
  unfolding view
  view-some q e = rw (e, view) refl

  view-none : lookup sid d.queues ≡ none → view d sid ≡ []
  unfolding view
  view-none e = rw (e, view) refl

  -- A stream is contained exactly if payloads wait for it, and its counts are those of its payloads.
  pub view_counts :
      (contains d sid ≡ not (is_nil (view d sid)))
      × (stream_frames d sid ≡ length (view d sid))
      × (stream_bytes d sid ≡ lens (view d sid))
  unfolding view contains stream_frames stream_bytes
  view_counts = elim (Option-cases (lookup sid d.queues)) [
    | inl e ↦ ground (arith, lookup-key sid d.queues e)
    | inr (q, e) ↦
        let w = AllValues-lookup IsQueue sid q d.queues v.queued e in
        elim (List-cases q.items) [
          | inl none_left ↦ absurd (omega (arith, w.nonempty, ap length none_left))
          | inr (p, ps, shape) ↦ ground (arith, w.counted, has_entry q e)
        ]
  ]

  view-pop_items :
      (items : List BufferedPayload) (n j : ℕ)
      → view d sid ≡ items
      → ((pop_items d sid items n).0 ≡ head? (view d sid))
        × (view (pop_items d sid items n).1 j ≡ (if sid == j then tail (view d j) else view d j))
  view-pop_items [] n j e = (rw e refl, ground (arith, ap (view d) {x = sid} {y = j}))
  view-pop_items (p ∷ ps) n j e = (
    rw e refl,
    ground (
      arith,
      view-put_rest d sid j (n - len p) ps (d.total_bytes - len p) v.keys,
      ap (view d) {x = sid} {y = j},
    ),
  )

  -- The payload that waited longest is taken, if there is one, and no other queue changes.
  pub view-pop_front :
      (j : ℕ)
      → ((pop_front d sid).0 ≡ head? (view d sid))
        × (view (pop_front d sid).1 j ≡ (if sid == j then tail (view d j) else view d j))
  unfolding pop_front
  view-pop_front j = elim (Option-cases (lookup sid d.queues)) [
    | inl e ↦
        rw (e, pop_front)
          (rw (view-none e) refl, ground (arith, view-none e, ap (view d) {x = sid} {y = j}))
    | inr (q, e) ↦ rw (e, pop_front) (view-pop_items q.items q.bytes j (view-some q e))
  ]

  -- A stream's payloads are handed to the caller in their order, and no other queue changes.
  pub view-remove_stream :
      (j : ℕ)
      → ((remove_stream d sid).0 ≡ (if contains d sid then some (view d sid) else none))
        × (view (remove_stream d sid).1 j ≡ (if sid == j then [] else view d j))
  unfolding contains remove_stream
  view-remove_stream j = elim (Option-cases (lookup sid d.queues)) [
    | inl e ↦ ground (arith, lookup-key sid d.queues e, view-none e, ap (view d) {x = sid} {y = j})
    | inr (q, e) ↦ ground (
      arith,
      has_entry q e,
      view-some q e,
      view-put_rest d sid j 0 [] (d.total_bytes - q.bytes) v.keys,
    )
  ]

abbrev pub IsAccounted : BufferedPayload → Type 0
IsAccounted p = p.accounted ≡ true

pub drop_payloads-lens :
    (ps : List BufferedPayload) (counter : ℕ)
    → All IsAccounted ps
    → drop_payloads ps counter ≡ counter - lens ps
unfolding drop_payloads
drop_payloads-lens [] counter h = omega arith
drop_payloads-lens (p ∷ ps) counter h =
    ground (arith, drop_payloads-lens ps (drop_payload p counter) h.1)

drop_queues-sum :
    (m : List (ℕ × StreamQueue)) (counter : ℕ)
    → AllValues IsQueue m
    → AllValues (λ q. All IsAccounted q.items) m
    → drop_queues m counter ≡ counter - sum bytes_of m
unfolding drop_queues sum
drop_queues-sum [] counter v h = omega arith
drop_queues-sum ((j, q) ∷ m) counter v h = omega (
  arith,
  drop_payloads-lens q.items counter h.0,
  v.0.counted,
  drop_queues-sum m (drop_payloads q.items counter) v.1 h.1,
)

-- If every queued payload is accounted for, clearing gives back to the counter exactly the bytes of
-- the running total, and leaves nothing.
pub clear-counter :
    (d : PendingData) (counter : ℕ)
    → IsBalanced d
    → AllValues (λ q. All IsAccounted q.items) d.queues
    → clear d counter ≡ (no_data, counter - d.total_bytes)
unfolding clear
clear-counter d counter v h = ground (arith, drop_queues-sum d.queues counter v.queued h, v.balance)

-- A payload hands out the bytes that it was made of, and leaves the counter as it was before it was
-- made; a payload that is dropped does the same. The counter must not wrap.
pub payload_leaves_once :
    (bytes : List ℕ) (counter : ℕ)
    → counter + length bytes < 2 ^ 64
    → (into_bytes (new_payload bytes counter).0 (new_payload bytes counter).1 ≡ (bytes, counter))
      × (drop_payload (new_payload bytes counter).0 (new_payload bytes counter).1 ≡ counter)
unfolding into_bytes new_payload drop_payload
payload_leaves_once bytes counter h = (ground arith, ground arith)
