-- ===== src/Session/Inbox/Order.antt =====
-- A stream's bytes are read in the order in which they came.
use kanotls.Prelude.{
  ℕ, ◌-◌, ◌≡◌, refl, ap, ◌∙◌, inl, inr, List, [], ◌∷◌, ◌++◌, none, some, Option-cases, Bool, true,
  false, Bool-cases, if◌then◌else◌, ◌&&◌, ◌||◌, not, arith, List-cases,
}
use kanotls.Prelude.Maps.{lookup, insert, IsMap, lookup-insert, lookup-remove}
use kanotls.Pending.{
  BufferedPayload, PendingData, StreamQueue, new_payload, len, push_back, pop_front, into_bytes,
  or_default, put_rest,
}
use kanotls.Pending
use kanotls.Session.{Session, Channel, member}
use kanotls.Session.Flush.{channel_of, set_channel, or_new}
use kanotls.Session.Inbox.{
  try_recv, hand_out, take_queued_pending_fin, try_drain_pending_data, Polled, data_read,
  end_of_stream, must_wait, read_pass, waiting,
}

pub channel_of-set_channel :
    (sid : ℕ) (c : Channel) (s : Session) → channel_of (set_channel sid c s) sid ≡ c
unfolding channel_of set_channel
channel_of-set_channel sid c s = ground (arith, lookup-insert sid sid c s.channels)

abbrev pub queue_of : PendingData → ℕ → List BufferedPayload
queue_of d sid = (or_default (lookup sid d.queues)).items

into_bytes_lem : (p : BufferedPayload) (counter : ℕ) → (into_bytes p counter).0 ≡ p.bytes
unfolding into_bytes Pending.release
into_bytes_lem p counter = ground arith

put_rest-queue :
    (sid : ℕ) (ps : List BufferedPayload) (n : ℕ) (m : List (ℕ × StreamQueue))
    → IsMap m
    → (or_default (lookup sid (put_rest sid ps n m))).items ≡ ps
put_rest-queue sid [] n m map = rw (lookup-remove sid sid m map) (ground arith)
put_rest-queue sid (p ∷ ps) n m map =
    rw (lookup-insert sid sid (record { items = p ∷ ps; bytes = n }) m) (ground arith)

-- What `pop_front` takes, and what it leaves.
pub pop_front-queue :
    (d : PendingData) (sid : ℕ) (p : BufferedPayload) (ps : List BufferedPayload)
    → IsMap d.queues
    → queue_of d sid ≡ p ∷ ps
    → ((pop_front d sid).0 ≡ some p) × (queue_of (pop_front d sid).1 sid ≡ ps)
unfolding pop_front
pop_front-queue d sid p ps m e = elim (Option-cases (lookup sid d.queues)) [
  | inl none_there ↦ ground (arith, e)
  | inr (q, there) ↦
      let items : q.items ≡ p ∷ ps = rw (queue_of, there) at e in
      rw (pop_front, there, items) (refl, put_rest-queue sid ps (q.bytes - len p) d.queues m)
]

pop_front-none : (d : PendingData) (sid : ℕ) → queue_of d sid ≡ [] → pop_front d sid ≡ (none, d)
unfolding pop_front
pop_front-none d sid e = elim (Option-cases (lookup sid d.queues)) [
  | inl none_there ↦ rw (pop_front, none_there) refl
  | inr (q, there) ↦
      let items : q.items ≡ [] = rw (queue_of, there) at e in rw (pop_front, there, items) refl
]

abbrev SameBacklog : Session → PendingData → Session → Type 0
SameBacklog r d s = (r.pending_data ≡ d) × (r.channels ≡ s.channels)

fin-SameBacklog :
    (locked : Bool) (sid : ℕ) (closed : Bool) (s : Session)
    → SameBacklog (take_queued_pending_fin locked sid closed s).1 s.pending_data s
unfolding take_queued_pending_fin
fin-SameBacklog true sid closed s = (refl, refl)
fin-SameBacklog false sid closed s = elim (Bool-cases (member sid s.pending_fin)) [
  | inl e ↦ rw (take_queued_pending_fin, e) (refl, refl)
  | inr e ↦ rw (take_queued_pending_fin, e) (refl, refl)
]

-- A look at the pending data gives its first payload.
pub drain_lem :
    (fin_locked : Bool) (sid : ℕ) (closed : Bool) (s : Session) (p : BufferedPayload)
    → (pop_front s.pending_data sid).0 ≡ some p
    → ((try_drain_pending_data false fin_locked sid closed s).0 ≡ some p.bytes)
      × SameBacklog
          (try_drain_pending_data false fin_locked sid closed s).2
          (pop_front s.pending_data sid).1
          s
unfolding try_drain_pending_data hand_out
drain_lem fin_locked sid closed s p e =
    let d = (pop_front s.pending_data sid).1 in
    let rest : Session = record s { pending_data = d } in
    let ended = fin-SameBacklog fin_locked sid closed rest in
    elim (Bool-cases (not (Pending.contains d sid))) [
      | inl drained ↦ rw (try_drain_pending_data, e, drained) (ap some (into_bytes_lem p _), ended)
      | inr more ↦ rw (try_drain_pending_data, e, more) (ap some (into_bytes_lem p _), (refl, refl))
    ]

pub try_recv-empty :
    (sid : ℕ) (s : Session) → (channel_of s sid).items ≡ [] → (try_recv sid s).0 ≡ none
unfolding try_recv
try_recv-empty sid s e = rw (try_recv, e) refl

try_recv-head :
    (sid : ℕ) (s : Session) (x : BufferedPayload) (xs : List BufferedPayload)
    → (channel_of s sid).items ≡ x ∷ xs
    → ((try_recv sid s).0 ≡ some x)
      × ((try_recv sid s).1 ≡ set_channel sid (record (channel_of s sid) { items = xs }) s)
unfolding try_recv
try_recv-head sid s x xs e = rw (try_recv, e) (refl, refl)

read_pass-waiting :
    (fin_locked : Bool) (sid : ℕ) (closed : Bool) (s : Session) (p : BufferedPayload)
    (ps : List BufferedPayload)
    → IsMap s.pending_data.queues
    → waiting s sid ≡ p ∷ ps
    → ((read_pass (λ t. t) false fin_locked sid closed s).0 ≡ data_read p.bytes)
      × (waiting (read_pass (λ t. t) false fin_locked sid closed s).2 sid ≡ ps)
unfolding read_pass waiting hand_out channel_of set_channel
read_pass-waiting fin_locked sid closed s p ps m e = elim (List-cases (channel_of s sid).items) [
  | inl empty ↦
      let queue : queue_of s.pending_data sid ≡ p ∷ ps = rw (waiting, empty) at e in
      let (popped, left) = pop_front-queue s.pending_data sid p ps m queue in
      let (read, same) = drain_lem fin_locked sid closed s p popped in
      let r = (try_drain_pending_data false fin_locked sid closed s).2 in
      rw (read_pass, try_recv-empty sid s empty, read) (refl, rw (same.1, same.0, empty) left)
  | inr (x, xs, some_there) ↦
      let both : x ∷ (xs ++ queue_of s.pending_data sid) ≡ p ∷ ps = rw (waiting, some_there) at e in
      let head : x ≡ p = cc in
      let tail : xs ++ queue_of s.pending_data sid ≡ ps = cc in
      let c : Channel = record (channel_of s sid) { items = xs } in
      let put : lookup sid (insert sid c s.channels) ≡ some c =
        lookup-insert sid sid c s.channels ∙ ground arith in
      let after : (or_new (lookup sid (insert sid c s.channels))).items
            ++ queue_of s.pending_data sid
          ≡ ps =
        rw put tail in
      let (got, rest) = try_recv-head sid s x xs some_there in
      let moved : (try_recv sid s).1.channels ≡ insert sid c s.channels =
        ap (λ (t : Session). t.channels) rest in
      rw (read_pass, got)
        (
          ap data_read (
              into_bytes_lem x s.buffered_stream_bytes
              ∙ ap (λ (y : BufferedPayload). y.bytes) head),
          ap (λ ch. (or_new (lookup sid ch)).items ++ queue_of s.pending_data sid) moved ∙ after,
        )
]

append_empty : (xs ys : List BufferedPayload) → xs ++ ys ≡ [] → (xs ≡ []) × (ys ≡ [])
append_empty [] ys e = (refl, e)
append_empty (x ∷ xs) ys e = cc

fin_lem :
    (locked : Bool) (sid : ℕ) (closed : Bool) (s : Session)
    → (take_queued_pending_fin locked sid closed s).0
      ≡ closed || (not locked && member sid s.pending_fin)
unfolding take_queued_pending_fin
fin_lem locked sid closed s = ground arith

drain_nothing :
    (fin_locked : Bool) (sid : ℕ) (closed : Bool) (s : Session)
    → queue_of s.pending_data sid ≡ []
    → ((try_drain_pending_data false fin_locked sid closed s).0 ≡ none)
      × ((try_drain_pending_data false fin_locked sid closed s).1
          ≡ closed || (not fin_locked && member sid s.pending_fin))
      × SameBacklog (try_drain_pending_data false fin_locked sid closed s).2 s.pending_data s
unfolding try_drain_pending_data
drain_nothing fin_locked sid closed s e =
    let popped = pop_front-none s.pending_data sid e in
    let rest : Session = record s { pending_data = (pop_front s.pending_data sid).1 } in
    let same : (pop_front s.pending_data sid).1 ≡ s.pending_data = ap (λ r. r.1) popped in
    let (left, channels) = fin-SameBacklog fin_locked sid closed rest in
    rw (try_drain_pending_data, ap (λ r. r.0) popped)
      (refl, fin_lem fin_locked sid closed rest, (left ∙ same, channels))

read_pass-nothing :
    (fin_locked : Bool) (sid : ℕ) (closed : Bool) (s : Session)
    → waiting s sid ≡ []
    → ((read_pass (λ t. t) false fin_locked sid closed s).0 ≡ (
        if closed || (not fin_locked && member sid s.pending_fin)
        then end_of_stream
        else must_wait))
      × (waiting (read_pass (λ t. t) false fin_locked sid closed s).2 sid ≡ [])
unfolding read_pass waiting channel_of
read_pass-nothing fin_locked sid closed s e =
    let (empty, queue) = append_empty (channel_of s sid).items (queue_of s.pending_data sid) e in
    let (read, end, same) = drain_nothing fin_locked sid closed s queue in
    rw (read_pass, try_recv-empty sid s empty, read) (rw end refl, rw (same.1, same.0, empty) queue)

abbrev pub after_first : List BufferedPayload → List BufferedPayload
after_first [] = []
after_first (p ∷ ps) = ps

abbrev pub first_or : Polled → List BufferedPayload → Polled
first_or otherwise [] = otherwise
first_or otherwise (p ∷ ps) = data_read p.bytes

-- A pass of the reader's loop that nothing comes between, with the pending data's lock free, hands
-- out the bytes of the payload that waited longest, and the rest goes on waiting in order. If
-- nothing waits, the pass ends the stream if its end is known, and waits if it is not.
pub read_pass_order :
    (fin_locked : Bool) (sid : ℕ) (closed : Bool) (s : Session)
    → IsMap s.pending_data.queues
    → ((read_pass (λ t. t) false fin_locked sid closed s).0
        ≡ first_or
            (if closed || (not fin_locked && member sid s.pending_fin)
              then end_of_stream
              else must_wait)
            (waiting s sid))
      × (waiting (read_pass (λ t. t) false fin_locked sid closed s).2 sid
          ≡ after_first (waiting s sid))
read_pass_order fin_locked sid closed s m = elim (List-cases (waiting s sid)) [
  | inl e ↦ rw e (read_pass-nothing fin_locked sid closed s e)
  | inr (p, ps, e) ↦ rw e (read_pass-waiting fin_locked sid closed s p ps m e)
]
