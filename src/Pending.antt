-- ===== src/Pending.antt =====
-- crates/session/src/session/pending.rs: payloads that wait for their reader, and the two accounts of
-- their bytes: the counter `buffered_stream_bytes`, which every payload enters and leaves once, and the
-- running totals of the queues. The counter is passed from call to call.
pub mod Ledger
pub mod Streams
pub mod Opening
use kanotls.Prelude.{
  ℕ, ◌+◌, ◌-◌, ◌%◌, ◌^◌, List, [], ◌∷◌, ◌++◌, Option, none, some, Bool, true, false, if◌then◌else◌,
  ◌==◌, length,
}
use kanotls.Prelude.Maps.{lookup, insert, remove, has_key}

pub record BufferedPayload : Type 0 where
  pub bytes : List ℕ
  pub accounted : Bool

abbrev pub len : BufferedPayload → ℕ
len p = length p.bytes

-- `fetch_update` with `saturating_sub`.
unfoldable pub subtract_buffered_stream_bytes : ℕ → ℕ → ℕ
subtract_buffered_stream_bytes counter n = if n == 0 then counter else counter - n

-- `fetch_add` wraps.
unfoldable pub new_payload : List ℕ → ℕ → BufferedPayload × ℕ
new_payload bytes counter =
    (record { bytes = bytes; accounted = true }, (counter + length bytes) % 2 ^ 64)

unfoldable pub release : BufferedPayload → ℕ → BufferedPayload × ℕ
unfolding subtract_buffered_stream_bytes
release p counter =
    if p.accounted
    then (record p { accounted = false }, subtract_buffered_stream_bytes counter (len p))
    else (p, counter)

-- `Drop::drop`
unfoldable pub drop_payload : BufferedPayload → ℕ → ℕ
unfolding release
drop_payload p counter = (release p counter).1

-- The bytes go to the caller. What is left of the payload has no bytes, and is dropped at once.
unfoldable pub into_bytes : BufferedPayload → ℕ → List ℕ × ℕ
unfolding release drop_payload
into_bytes p counter =
    let (released, after) = release p counter in
    (released.bytes, drop_payload (record released { bytes = [] }) after)

unfoldable pub drop_payloads : List BufferedPayload → ℕ → ℕ
unfolding drop_payload
drop_payloads [] counter = counter
drop_payloads (p ∷ ps) counter = drop_payloads ps (drop_payload p counter)

pub record StreamQueue : Type 0 where
  pub items : List BufferedPayload
  pub bytes : ℕ

abbrev pub empty_queue : StreamQueue
empty_queue = record { items = []; bytes = 0 }

pub record PendingData : Type 0 where
  pub queues : List (ℕ × StreamQueue)
  pub total_bytes : ℕ

abbrev pub no_data : PendingData
no_data = record { queues = []; total_bytes = 0 }

unfoldable pub contains : PendingData → ℕ → Bool
unfolding has_key
contains d sid = has_key sid d.queues

abbrev pub or_default : Option StreamQueue → StreamQueue
or_default none = empty_queue
or_default (some q) = q

unfoldable pub stream_bytes : PendingData → ℕ → ℕ
unfolding lookup
stream_bytes d sid = elim (lookup sid d.queues) [ none ↦ 0 | some q ↦ q.bytes ]

unfoldable pub stream_frames : PendingData → ℕ → ℕ
unfolding lookup
stream_frames d sid = elim (lookup sid d.queues) [ none ↦ 0 | some q ↦ length q.items ]

-- The number of streams with a queue.
unfoldable pub stream_count : PendingData → ℕ
stream_count d = length d.queues

unfoldable pub remove_stream : PendingData → ℕ → Option (List BufferedPayload) × PendingData
unfolding lookup remove
remove_stream d sid = elim (lookup sid d.queues) [
  | none ↦ (none, d)
  | some q ↦
      (some q.items, record { queues = remove sid d.queues; total_bytes = d.total_bytes - q.bytes })
]

-- Every payload in a queue is dropped.
unfoldable pub drop_queues : List (ℕ × StreamQueue) → ℕ → ℕ
unfolding drop_payloads
drop_queues [] counter = counter
drop_queues ((sid, q) ∷ m) counter = drop_queues m (drop_payloads q.items counter)

unfoldable pub clear : PendingData → ℕ → PendingData × ℕ
unfolding drop_queues
clear d counter = (no_data, drop_queues d.queues counter)

unfoldable pub push_back : PendingData → ℕ → BufferedPayload → PendingData
unfolding lookup insert
push_back d sid payload =
    let queue = or_default (lookup sid d.queues) in
    record {
      queues =
          insert sid
            (record { items = queue.items ++ (payload ∷ []); bytes = queue.bytes + len payload })
            d.queues;
      total_bytes = d.total_bytes + len payload;
    }

-- A queue that runs empty goes away with its entry.
abbrev pub put_rest : ℕ → List BufferedPayload → ℕ → List (ℕ × StreamQueue) → List (ℕ × StreamQueue)
put_rest sid [] n m = remove sid m
put_rest sid (p ∷ ps) n m = insert sid (record { items = p ∷ ps; bytes = n }) m

abbrev pub pop_items :
    PendingData → ℕ → List BufferedPayload → ℕ → Option BufferedPayload × PendingData
pop_items d sid [] n = (none, d)
pop_items d sid (p ∷ ps) n = (
  some p,
  record { queues = put_rest sid ps (n - len p) d.queues; total_bytes = d.total_bytes - len p },
)

unfoldable pub pop_front : PendingData → ℕ → Option BufferedPayload × PendingData
unfolding lookup insert remove
pop_front d sid = elim (lookup sid d.queues) [
  | none ↦ (none, d)
  | some q ↦ pop_items d sid q.items q.bytes
]
