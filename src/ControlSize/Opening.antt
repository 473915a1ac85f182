-- ===== src/ControlSize/Opening.antt =====
-- The opening sequence of sizes.
use kanotls.Prelude.{
  ℕ, ◌+◌, ◌≤◌, ◌≡◌, Option, none, some, Bool, true, false, ◌==◌, ◌&&◌, arith, length,
}
use kanotls.Frame.{encoded_len}
use kanotls.ControlSize.{
  FlowDirection, c2s, s2c, ConnectionState, handshake, transport, from_control_count,
  h2_opening_size, is_settings_bearing_wire_size, settings_frame, min_data_wire_len,
}

abbrev pub bears_settings : Option ℕ → Bool
bears_settings none = false
bears_settings (some size) = is_settings_bearing_wire_size size

abbrev pub is_server : FlowDirection → Bool
is_server c2s = false
is_server s2c = true

abbrev pub goes_on : Option ℕ → ConnectionState
goes_on none = transport
goes_on (some size) = handshake

abbrev pub size_or_0 : Option ℕ → ℕ
size_or_0 none = 0
size_or_0 (some size) = size

-- Whichever settings are drawn: of the sizes in an opening sequence just the server's first one is that of
-- a record with SETTINGS; the handshake state lasts as long as the server's sequence; and the frame of the
-- protocol's own settings fits in the record of the first size.
pub opening_sizes :
    (large : Bool) (direction : FlowDirection) (index : ℕ)
    → (bears_settings (h2_opening_size large direction index)
        ≡ (is_server direction && (index == 0)))
      × (from_control_count index ≡ goes_on (h2_opening_size large s2c index))
      × (encoded_len (length settings_frame.payload) + min_data_wire_len
          ≤ size_or_0 (h2_opening_size large s2c 0))
unfolding h2_opening_size from_control_count is_settings_bearing_wire_size
opening_sizes true c2s index = (ground arith, ground arith, omega arith)
opening_sizes true s2c index = (ground arith, ground arith, omega arith)
opening_sizes false c2s index = (ground arith, ground arith, omega arith)
opening_sizes false s2c index = (ground arith, ground arith, omega arith)
