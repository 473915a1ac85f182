-- ===== src/ControlSize.antt =====
-- crates/tunnel/src/control_size.rs: the sizes on the wire of the records that pass for HTTP/2 control
-- frames, and the frame constructors of crates/session/src/frame.rs that fill the first ones. The choice
-- between small and large settings, drawn once for a process, is an argument.
pub mod Opening
use kanotls.Prelude.{
  ℕ, ◌+◌, List, [], ◌∷◌, Option, none, some, Bool, true, false, if◌then◌else◌, ltb, ◌==◌, ◌||◌,
}
use kanotls.Frame.{Frame}
use kanotls.Frame.{cmd_settings}

-- Five bytes of header, sixteen of tag and one of content type.
abbrev pub control_tls_overhead : ℕ
control_tls_overhead = 5 + 16 + 1

abbrev pub block_len_prefix_size : ℕ
block_len_prefix_size = 2

abbrev pub min_data_wire_len : ℕ
min_data_wire_len = 5 + 2 + 1 + 16

abbrev pub window_update_wire : ℕ
window_update_wire = 13 + block_len_prefix_size + control_tls_overhead

abbrev pub settings_ack_wire : ℕ
settings_ack_wire = 9 + block_len_prefix_size + control_tls_overhead

abbrev pub settings_small_wire : ℕ
settings_small_wire = 27 + block_len_prefix_size + control_tls_overhead

abbrev pub settings_large_wire : ℕ
settings_large_wire = 45 + block_len_prefix_size + control_tls_overhead

abbrev pub merged_settings_wu_small_wire : ℕ
merged_settings_wu_small_wire = 40 + block_len_prefix_size + control_tls_overhead

abbrev pub merged_settings_wu_large_wire : ℕ
merged_settings_wu_large_wire = 58 + block_len_prefix_size + control_tls_overhead

pub data ConnectionState : Type 0 where
  handshake : ConnectionState
  transport : ConnectionState

pub data FlowDirection : Type 0 where
  c2s : FlowDirection
  s2c : FlowDirection

abbrev pub h2_opening_max_len : ℕ
h2_opening_max_len = 3

unfoldable pub from_control_count : ℕ → ConnectionState
from_control_count count = if ltb count h2_opening_max_len then handshake else transport

unfoldable pub is_settings_bearing_wire_size : ℕ → Bool
is_settings_bearing_wire_size size =
    (size == settings_small_wire)
    || ((size == settings_large_wire)
        || ((size == merged_settings_wu_small_wire) || (size == merged_settings_wu_large_wire)))

unfoldable pub h2_opening_size : Bool → FlowDirection → ℕ → Option ℕ
h2_opening_size large_settings c2s index = if index == 0 then some settings_ack_wire else none
h2_opening_size large_settings s2c index =
    if index == 0
    then some (if large_settings then settings_large_wire else settings_small_wire)
    else if index == 1
    then some window_update_wire
    else if index == 2
    then some settings_ack_wire
    else none

-- `Frame::cmd_settings`, with "v=2;fc=1".
abbrev pub settings_frame : Frame
settings_frame = record {
  cmd = cmd_settings;
  stream_id = 0;
  payload = 118 ∷ 61 ∷ 50 ∷ 59 ∷ 102 ∷ 99 ∷ 61 ∷ 49 ∷ [];
}
