-- ===== src/Frame/Padding/Sizes.antt =====
-- The size that the write loop reads back from a padding packet is the size that it was made for.
use kanotls.Prelude.{
  ℕ, ◌+◌, ◌-◌, ◌≤◌, ◌<◌, ◌≡◌, some, arith, length, replicate, length-replicate, length-drop,
}
use kanotls.Frame.Padding.{
  encode_padding_frame_sized, encode_padding_request_sized, encode_padding_reply_sized,
  encode_padding_goaway_sized, encode_padding_window_update_sized, self_sized_padding_wire_len,
  min_padding_record_wire_len, control_record_min_overhead,
}

-- A target that a padding record can have: the floor, up to the largest length field.
abbrev pub IsTarget : ℕ → Type 0
IsTarget w = (min_padding_record_wire_len ≤ w) × (w < 65567)

pub length-encode_padding_frame_sized :
    (flag m w : ℕ)
    → IsTarget w
    → length (encode_padding_frame_sized flag m w) + control_record_min_overhead ≡ w
unfolding encode_padding_frame_sized
length-encode_padding_frame_sized flag m w h = omega (arith, length-replicate {A = ℕ} (w - 33) 0)

-- For every target that a padding record can have, the size that is read back from a request, a
-- reply, a GOAWAY and a WINDOW_UPDATE packet is the target.
pub self_sized_padding_wire_len-encode :
    (m sid word w : ℕ)
    → IsTarget w
    → (self_sized_padding_wire_len (encode_padding_request_sized m w) ≡ some w)
      × (self_sized_padding_wire_len (encode_padding_reply_sized w) ≡ some w)
      × (self_sized_padding_wire_len (encode_padding_goaway_sized word w) ≡ some w)
      × (self_sized_padding_wire_len (encode_padding_window_update_sized sid word w) ≡ some w)
unfolding encode_padding_frame_sized encode_padding_request_sized encode_padding_reply_sized
    encode_padding_goaway_sized encode_padding_window_update_sized self_sized_padding_wire_len
self_sized_padding_wire_len-encode m sid word w h = (
  ground (arith, length-replicate {A = ℕ} (w - 33) 0),
  ground (arith, length-replicate {A = ℕ} (w - 33) 0),
  ground (arith, length-replicate {A = ℕ} (w - 33) 0, length-drop {A = ℕ} 4 (replicate (w - 33) 0)),
  ground (arith, length-replicate {A = ℕ} (w - 33) 0, length-drop {A = ℕ} 4 (replicate (w - 33) 0)),
)
