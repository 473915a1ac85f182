-- ===== src/Pending/Ledger.antt =====
-- The accounts of the queues agree with their contents, after every operation.
use kanotls.Prelude.{
  ℕ, ◌+◌, ◌-◌, ◌≤◌, ◌<◌, ◌≡◌, inl, inr, refl, List, [], ◌∷◌, ◌++◌, some, length, length-append,
  arith, Option-cases,
}
use kanotls.Prelude.Maps.{
  lookup, IsMap, insert-IsMap, remove-IsMap, sum, weight_at, sum-insert, sum-remove, AllValues,
  AllValues-insert, AllValues-remove, AllValues-lookup,
}
use kanotls.Pending.{
  BufferedPayload, len, StreamQueue, PendingData, no_data, or_default, remove_stream, clear,
  push_back, pop_front, pop_items,
}

abbrev pub lens : List BufferedPayload → ℕ
lens [] = 0
lens (p ∷ ps) = len p + lens ps

pub lens-append : (ps qs : List BufferedPayload) → lens (ps ++ qs) ≡ lens ps + lens qs
lens-append [] qs = omega arith
lens-append (p ∷ ps) qs = omega (arith, lens-append ps qs)

-- Its byte count is that of its payloads, and it is not empty.
pub record IsQueue (q : StreamQueue) : Type 0 where
  pub counted : q.bytes ≡ lens q.items
  pub nonempty : 0 < length q.items

abbrev pub bytes_of : StreamQueue → ℕ
bytes_of q = q.bytes

pub record IsBalanced (d : PendingData) : Type 0 where
  pub keys : IsMap d.queues
  pub queued : AllValues IsQueue d.queues
  pub balance : d.total_bytes ≡ sum bytes_of d.queues

pub no_data-IsBalanced : IsBalanced no_data
unfolding sum
no_data-IsBalanced = record { keys = tt; queued = tt; balance = refl }

module _ (d : PendingData) (v : IsBalanced d) (sid : ℕ) where
  -- No subtraction of a queue's bytes from the total goes below zero.
  pub queue_bytes-le-total :
      (q : StreamQueue) → lookup sid d.queues ≡ some q → q.bytes ≤ d.total_bytes
  queue_bytes-le-total q e = ground (arith, v.balance, sum-remove bytes_of sid d.queues)

  old : StreamQueue
  old = or_default (lookup sid d.queues)

  default_bytes : old.bytes ≡ weight_at bytes_of sid d.queues
  unfolding old
  default_bytes = ground arith

  default_counted : old.bytes ≡ lens old.items
  unfolding old
  default_counted = elim (Option-cases (lookup sid d.queues)) [
    | inl e ↦ rw e refl
    | inr (q, e) ↦ rw e (AllValues-lookup IsQueue sid q d.queues v.queued e).counted
  ]

  pub push_back-IsBalanced : (payload : BufferedPayload) → IsBalanced (push_back d sid payload)
  unfolding push_back old
  push_back-IsBalanced payload = record {
    keys = insert-IsMap sid _ d.queues v.keys;
    queued =
        AllValues-insert IsQueue sid _ d.queues
          (record {
            counted = omega (arith, default_counted, lens-append old.items (payload ∷ []));
            nonempty = omega (arith, length-append old.items (payload ∷ []));
          })
          v.queued;
    balance = omega (
      arith,
      v.balance,
      default_bytes,
      sum-insert bytes_of sid
          (record { items = old.items ++ (payload ∷ []); bytes = old.bytes + len payload })
          d.queues,
    );
  }

  pub remove_stream-IsBalanced : IsBalanced (remove_stream d sid).1
  unfolding remove_stream
  remove_stream-IsBalanced = elim (Option-cases (lookup sid d.queues)) [
    | inl e ↦ rw (e, remove_stream) v
    | inr (q, e) ↦
        rw (e, remove_stream)
          (record {
            keys = remove-IsMap sid d.queues v.keys;
            queued = AllValues-remove IsQueue sid d.queues v.queued;
            balance = ground (arith, v.balance, sum-remove bytes_of sid d.queues);
          })
  ]

  pop_items-IsBalanced :
      (items : List BufferedPayload) (n : ℕ)
      → lookup sid d.queues ≡ some (record { items = items; bytes = n })
      → IsBalanced (pop_items d sid items n).1
  pop_items-IsBalanced [] n e = v
  pop_items-IsBalanced (p ∷ []) n e =
      let q = AllValues-lookup IsQueue sid _ d.queues v.queued e in
      record {
        keys = remove-IsMap sid d.queues v.keys;
        queued = AllValues-remove IsQueue sid d.queues v.queued;
        balance = ground (arith, v.balance, q.counted, sum-remove bytes_of sid d.queues);
      }
  pop_items-IsBalanced (p ∷ p' ∷ ps) n e =
      let q = AllValues-lookup IsQueue sid _ d.queues v.queued e in
      let rest : StreamQueue = record { items = p' ∷ ps; bytes = n - len p } in
      record {
        keys = insert-IsMap sid rest d.queues v.keys;
        queued =
            AllValues-insert IsQueue sid rest d.queues
              (record { counted = omega (arith, q.counted); nonempty = omega arith }) v.queued;
        balance = ground (arith, v.balance, q.counted, sum-insert bytes_of sid rest d.queues);
      }

  pub pop_front-IsBalanced : IsBalanced (pop_front d sid).1
  unfolding pop_front
  pop_front-IsBalanced = elim (Option-cases (lookup sid d.queues)) [
    | inl e ↦ rw (e, pop_front) v
    | inr (q, e) ↦ rw (e, pop_front) (pop_items-IsBalanced q.items q.bytes e)
  ]

-- Every operation on the pending queues keeps the accounts right: each queue's bytes are those of
-- its payloads, no queue is empty, and the total is the sum over the queues. So no subtraction of a
-- queue's bytes from the total goes below zero.
pub operations-IsBalanced :
    (d : PendingData) (sid counter : ℕ) (payload : BufferedPayload)
    → IsBalanced d
    → IsBalanced (push_back d sid payload)
      × IsBalanced (pop_front d sid).1
      × IsBalanced (remove_stream d sid).1
      × IsBalanced (clear d counter).0
      × ((q : StreamQueue) → lookup sid d.queues ≡ some q → q.bytes ≤ d.total_bytes)
operations-IsBalanced d sid counter payload v = (
  push_back-IsBalanced d v sid payload,
  pop_front-IsBalanced d v sid,
  remove_stream-IsBalanced d v sid,
  unfold clear in no_data-IsBalanced,
  queue_bytes-le-total d v sid,
)
