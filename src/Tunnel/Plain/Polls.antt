-- ===== src/Tunnel/Plain/Polls.antt =====
-- Calls of `poll_read`, one after the other, hand over the bytes of the records in order.
use kanotls.Prelude.{
  ℕ, zero, suc, ◌+◌, ◌≤◌, ◌<◌, ◌≡◌, refl, subst, sym, inl, inr, List, [], Bool, false, Bool-cases,
  if◌then◌else◌, arith, length,
}
use kanotls.Tunnel.Noise.{Noise}
use kanotls.Tunnel.Reading.{
  SnowyReadHalf, Turn, outer, inner, returns, Status, ready, at_outer, at_inner, run, fuel_for,
  poll_read,
}
use kanotls.Tunnel.Plain.Turns.{
  unread, all_bytes, IsReading, cost, IsDrained, Ends, Keeps, at_outer-Keeps,
}
use kanotls.Tunnel.Plain.Steps.{at_inner-Keeps}

-- The invariant between two calls: the offsets lie in their buffers.
pub record IsResting (r : SnowyReadHalf) : Type 0 where
  pub inner_fits : r.read_offset ≤ length r.read_buf_inner
  pub rx_fits : r.tls_rx_offset ≤ length r.tls_rx_buf

-- What a call of `poll_read` gives, of the bytes `bs`.
abbrev pub Gives : Noise → ℕ → List ℕ → Status × SnowyReadHalf → Type 0
Gives noise capacity bs result =
    IsReading capacity result.1 × (all_bytes noise result.1 ≡ bs) × Ends noise result.0 result.1

-- The steps that a turn still needs.
abbrev need : Turn → ℕ
need (outer r) = cost r + 2
need (inner r) = cost r + 1
need (returns st r) = 0

abbrev Invariant : Noise → ℕ → List ℕ → Turn → Type 0
Invariant noise capacity bs (outer r) =
    IsReading capacity r × (r.closed ≡ false) × (all_bytes noise r ≡ bs)
Invariant noise capacity bs (inner r) =
    IsReading capacity r × (r.closed ≡ false) × (all_bytes noise r ≡ bs) × IsDrained r
Invariant noise capacity bs (returns st r) = Gives noise capacity bs (st, r)

Keeps-Invariant :
    (noise : Noise) (capacity : ℕ) (bs : List ℕ) (budget : ℕ) (t : Turn)
    → Keeps noise capacity bs budget t
    → Invariant noise capacity bs t × (need t ≤ budget)
Keeps-Invariant noise capacity bs budget (outer r) k = ((k.0, k.1, k.2), k.3)
Keeps-Invariant noise capacity bs budget (inner r) k = ((k.0, k.1, k.2, k.4), k.3)
Keeps-Invariant noise capacity bs budget (returns st r) k = (k, omega arith)

-- With the fuel that a turn needs, the loops end by themselves.
run-Gives :
    (noise : Noise) (capacity : ℕ)
    → 0 < capacity
    → (fuel : ℕ) (t : Turn) (bs : List ℕ) → Invariant noise capacity bs t
    → need t ≤ fuel
    → Gives noise capacity bs (run noise fuel t)
unfolding run
run-Gives noise capacity some_room zero (outer r) bs inv enough = absurd (omega arith)
run-Gives noise capacity some_room zero (inner r) bs inv enough = absurd (omega arith)
run-Gives noise capacity some_room zero (returns st r) bs inv enough = inv
run-Gives noise capacity some_room (suc fuel) (returns st r) bs inv enough = inv
run-Gives noise capacity some_room (suc fuel) (outer r) bs (h, open', same) enough =
    let kept = at_outer-Keeps noise capacity some_room r h open' in
    let (after, cheaper) = Keeps-Invariant noise capacity _ _ (at_outer r) kept in
    subst (λ bs. Gives noise capacity bs (run noise fuel (at_outer r))) same
      (run-Gives noise capacity some_room fuel (at_outer r) (all_bytes noise r) after (omega arith))
run-Gives noise capacity some_room (suc fuel) (inner r) bs (h, open', same, drained) enough =
    let kept = at_inner-Keeps noise capacity r h drained open' in
    let (after, cheaper) = Keeps-Invariant noise capacity _ _ (at_inner noise r) kept in
    subst (λ bs. Gives noise capacity bs (run noise fuel (at_inner noise r))) same
      (run-Gives noise capacity some_room fuel (at_inner noise r) (all_bytes noise r) after
        (omega arith))

-- A call of `poll_read` with room in its buffer ends by itself. What it gives, with what is then still
-- to come, is what was to come before, however the socket cuts its bytes; it is ready without bytes
-- only at the end of the stream, and it gives no bytes when the socket is not ready, fails or ends
-- within a record.
pub poll_read-Gives :
    (noise : Noise) (capacity : ℕ) (r : SnowyReadHalf)
    → 0 < capacity
    → IsResting r
    → Gives noise capacity (unread noise r) (poll_read noise capacity r)
unfolding poll_read
poll_read-Gives noise capacity r some_room h = elim (Bool-cases r.closed) [
  | inl shut ↦ subst call (sym shut) (started, refl, inl shut)
  | inr open' ↦ subst call (sym open') (
      run-Gives noise capacity some_room (fuel_for start) (outer start) (all_bytes noise start)
        (started, open', refl) (omega arith))
]
  where
    start : SnowyReadHalf
    start = record r { filled = []; remaining = capacity; progress = false }

    started : IsReading capacity start
    started = record {
      inner_fits = h.inner_fits;
      rx_fits = h.rx_fits;
      room = omega arith;
      moved = refl;
    }

    call : Bool → Type 0
    call shut =
        Gives noise capacity (all_bytes noise start)
          (if shut then (ready, start) else run noise (fuel_for start) (outer start))
