-- ===== src/Flow.antt =====
-- crates/session/src/session/window.rs: flow control. The sending side takes credit from the connection
-- and from its stream in separate atomic steps, which other tasks interleave; the receiving side counts
-- what arrived and gives it back in WINDOW_UPDATE frames.
pub mod Credit
pub mod Tasks
pub mod Receive
pub mod Accounts
pub mod Ledger
pub mod Refund
pub mod Progress
pub mod Sleep
use kanotls.Prelude.{
  ℕ, ◌+◌, ◌-◌, ◌*◌, ◌/◌, ◌%◌, ◌^◌, max, min, Bool, true, false, if◌then◌else◌, leb, ltb,
}

-- An i64 is its bit pattern, below 2 ^ 64.
abbrev pub i64_add : ℕ → ℕ → ℕ
i64_add a b = (a + b) % 2 ^ 64

abbrev pub i64_sub : ℕ → ℕ → ℕ
i64_sub a b = (a + 2 ^ 64 - b) % 2 ^ 64

-- The signed order.
abbrev pub i64_le : ℕ → ℕ → Bool
i64_le a b = leb ((a + 2 ^ 63) % 2 ^ 64) ((b + 2 ^ 63) % 2 ^ 64)

abbrev pub stream_window_bytes : ℕ
stream_window_bytes = 32 * 1024 * 1024

abbrev pub h2_session_window_bytes : ℕ
h2_session_window_bytes = 32 * 1024 * 1024

abbrev pub h2_window_update_threshold : ℕ → ℕ
h2_window_update_threshold override_bytes =
    if ltb 0 override_bytes then override_bytes else h2_session_window_bytes / 8

-- What `WindowState::new` fixes, from the two override values (0 outside of tests).
pub record Limits : Type 0 where
  pub conn_window : ℕ
  pub conn_wu_threshold : ℕ
  pub stream_window : ℕ
  pub stream_wu_threshold : ℕ

abbrev pub chosen_stream_window : ℕ → ℕ
chosen_stream_window override_bytes =
    if ltb 0 override_bytes then override_bytes else stream_window_bytes

unfoldable pub new_limits : ℕ → ℕ → Limits
new_limits threshold_override stream_override = record {
  conn_window = min (h2_window_update_threshold threshold_override * 8) (2 ^ 63 - 1);
  conn_wu_threshold = h2_window_update_threshold threshold_override;
  stream_window = chosen_stream_window stream_override;
  stream_wu_threshold = max (chosen_stream_window stream_override / 8) 1;
}
