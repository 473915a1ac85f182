-- ===== src/Flow/Receive.antt =====
-- The receiving side of window.rs: what arrived or was consumed is counted, and given back in a
-- WINDOW_UPDATE packet once it reaches the threshold. Whether the control queue takes the packet is an
-- argument; the packet is the result if it does.
use kanotls.Prelude.{ℕ, ◌+◌, ◌-◌, ◌%◌, ◌^◌, min, List, Option, none, some, Bool, if◌then◌else◌, leb}
use kanotls.Frame.Padding.{encode_padding_window_update_sized}

-- 13 bytes and the overhead of a control record.
abbrev pub padding_window_update_wire : ℕ
padding_window_update_wire = 13 + 2 + (5 + 16 + 1)

abbrev pub u32_max : ℕ
u32_max = 4294967295

abbrev pub u64_max : ℕ
u64_max = 18446744073709551615

-- `saturating_add`
abbrev pub saturating_add : ℕ → ℕ → ℕ
saturating_add a b = min (a + b) u64_max

-- The compare-and-exchange loop ends at the first round in which no other task has counted; the
-- increment to give back, if the threshold is reached, and the new count.
unfoldable pub bump_conn_consumed : ℕ → ℕ → ℕ → Option ℕ × ℕ
bump_conn_consumed threshold consumed n =
    let sum = saturating_add consumed n in
    if leb threshold sum then (some (min sum u32_max), 0) else (none, sum)

unfoldable pub send_window_update : ℕ → ℕ → Bool → Option (List ℕ)
send_window_update sid increment queue_takes =
    if queue_takes
    then some (encode_padding_window_update_sized sid increment padding_window_update_wire)
    else none

-- The packet that was queued, and the count.
unfoldable pub note_conn_received : ℕ → ℕ → ℕ → Bool → Option (List ℕ) × ℕ
unfolding bump_conn_consumed send_window_update
note_conn_received threshold consumed n queue_takes =
    let bumped = bump_conn_consumed threshold consumed n in
    elim bumped.0 [
      | none ↦ (none, bumped.1)
      | some increment ↦
          if queue_takes
          then (send_window_update 0 increment queue_takes, bumped.1)
          else (send_window_update 0 increment queue_takes, (bumped.1 + increment) % 2 ^ 64)
    ]

unfoldable pub note_consumed : ℕ → ℕ → ℕ → ℕ → Bool → Option (List ℕ) × ℕ
unfolding send_window_update
note_consumed threshold sid consumed n queue_takes =
    let stream_total = consumed + n in
    let counted = stream_total % 2 ^ 64 in
    let taken = (counted + 2 ^ 64 - stream_total % 2 ^ 64) % 2 ^ 64 in
    let packet = send_window_update sid (min stream_total u32_max) queue_takes in
    if leb threshold stream_total
    then (if queue_takes then (packet, taken) else (packet, (taken + stream_total) % 2 ^ 64))
    else (none, counted)
