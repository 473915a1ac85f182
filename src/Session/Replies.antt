-- ===== src/Session/Replies.antt =====
-- crates/session/src/session.rs and session/h2.rs: the packets with which the read loop answers.
use kanotls.Prelude.{
  ℕ, zero, suc, ◌+◌, ◌-◌, List, [], ◌∷◌, ◌++◌, none, some, Bool, false, if◌then◌else◌, ltb, ◌==◌,
  ◌&&◌, ◌||◌, length, take, min, max, replicate,
}
use kanotls.Prelude.Bytes.{u32_to_be_bytes, u16_to_be_bytes}
use kanotls.Frame.{cmd_synack, frame_header_size}
use kanotls.Frame.Padding.{encode_padding_reply_sized, control_record_min_overhead}
use kanotls.Tunnel.Writing.{data_record_wire_len}
use kanotls.ControlSize.{
  s2c, h2_opening_size, is_settings_bearing_wire_size, settings_frame, settings_ack_wire,
  window_update_wire, control_tls_overhead, block_len_prefix_size,
}

-- Why a SYN is refused, and the words on the wire.
pub data Reason : Type 0 where
  settings_not_received : Reason
  duplicate_stream_id : Reason
  max_streams_reached : Reason
  server_overloaded : Reason
  not_accepted : Reason

abbrev pub reason_bytes : Reason → List ℕ
reason_bytes settings_not_received =
    115 ∷ 101 ∷ 116 ∷ 116 ∷ 105 ∷ 110 ∷ 103 ∷ 115 ∷ 32 ∷ 110 ∷ 111 ∷ 116 ∷ 32 ∷ 114 ∷ 101 ∷ 99 ∷ 101
    ∷ 105 ∷ 118 ∷ 101 ∷ 100 ∷ []
reason_bytes duplicate_stream_id =
    100 ∷ 117 ∷ 112 ∷ 108 ∷ 105 ∷ 99 ∷ 97 ∷ 116 ∷ 101 ∷ 32 ∷ 115 ∷ 116 ∷ 114 ∷ 101 ∷ 97 ∷ 109 ∷ 32
    ∷ 105 ∷ 100 ∷ []
reason_bytes max_streams_reached =
    109 ∷ 97 ∷ 120 ∷ 32 ∷ 115 ∷ 116 ∷ 114 ∷ 101 ∷ 97 ∷ 109 ∷ 115 ∷ 32 ∷ 112 ∷ 101 ∷ 114 ∷ 32 ∷ 115
    ∷ 101 ∷ 115 ∷ 115 ∷ 105 ∷ 111 ∷ 110 ∷ 32 ∷ 114 ∷ 101 ∷ 97 ∷ 99 ∷ 104 ∷ 101 ∷ 100 ∷ []
reason_bytes server_overloaded =
    115 ∷ 101 ∷ 114 ∷ 118 ∷ 101 ∷ 114 ∷ 32 ∷ 111 ∷ 118 ∷ 101 ∷ 114 ∷ 108 ∷ 111 ∷ 97 ∷ 100 ∷ 101
    ∷ 100 ∷ []
reason_bytes not_accepted =
    105 ∷ 110 ∷ 98 ∷ 111 ∷ 117 ∷ 110 ∷ 100 ∷ 32 ∷ 115 ∷ 116 ∷ 114 ∷ 101 ∷ 97 ∷ 109 ∷ 115 ∷ 32 ∷ 110
    ∷ 111 ∷ 116 ∷ 32 ∷ 97 ∷ 99 ∷ 99 ∷ 101 ∷ 112 ∷ 116 ∷ 101 ∷ 100 ∷ []

abbrev pub synack_rejection_payload_len : ℕ
synack_rejection_payload_len = 32

-- The words, filled up with spaces.
abbrev pub rejection_payload : Reason → List ℕ
rejection_payload reason =
    take synack_rejection_payload_len (reason_bytes reason)
    ++ replicate (synack_rejection_payload_len - length (reason_bytes reason)) 32

-- The encoded frame that `send_synack_rejection` queues.
unfoldable pub synack_rejection : ℕ → Reason → List ℕ
synack_rejection stream_id reason =
    cmd_synack ∷ (u32_to_be_bytes stream_id ++ (u16_to_be_bytes 32 ++ rejection_payload reason))

-- `payload.windows(4).any(|w| w == b"fc=1")`
abbrev pub starts_fc : List ℕ → Bool
starts_fc (a ∷ (b ∷ (c ∷ (d ∷ rest)))) = (a == 102) && ((b == 99) && ((c == 61) && (d == 49)))
starts_fc _ = false

unfoldable pub announces_flow_control : List ℕ → Bool
announces_flow_control [] = false
announces_flow_control (b ∷ bs) = starts_fc (b ∷ bs) || announces_flow_control bs

-- `Frame::cmd_settings().encode()`
unfoldable pub settings_packet : List ℕ
settings_packet =
    settings_frame.cmd
    ∷ (u32_to_be_bytes settings_frame.stream_id
        ++ (u16_to_be_bytes (length settings_frame.payload) ++ settings_frame.payload))

-- The packets from an index on; the sequence of sizes ends before `fuel` does.
unfoldable pub opening_from : Bool → Bool → ℕ → ℕ → List (List ℕ)
unfolding h2_opening_size settings_packet encode_padding_reply_sized
opening_from post_script_off large zero index = []
opening_from post_script_off large (suc fuel) index =
    let rest = opening_from post_script_off large fuel (index + 1) in
    elim (h2_opening_size large s2c index) [
      | none ↦ []
      | some size ↦
          if index == 0
          then settings_packet ∷ rest
          else if post_script_off
          then []
          else encode_padding_reply_sized size ∷ rest
    ]

unfoldable pub h2_server_opening : Bool → Bool → List (List ℕ)
unfolding opening_from
h2_server_opening post_script_off large = opening_from post_script_off large 4 0

abbrev pub l1_max_wire_len : ℕ
l1_max_wire_len = 160

abbrev pub ping_wire : ℕ
ping_wire = 17 + block_len_prefix_size + control_tls_overhead

-- `drawn` is the payload size that `next_data_record_payload` draws.
unfoldable pub padding_reply_wire_len : ℕ → ℕ → ℕ → ℕ
unfolding is_settings_bearing_wire_size
padding_reply_wire_len drawn request_wire_len index =
    if ltb 0 index
    then window_update_wire
    else if is_settings_bearing_wire_size request_wire_len
    then settings_ack_wire
    else if ltb l1_max_wire_len request_wire_len
    then data_record_wire_len drawn
    else ping_wire

abbrev pub max_padding_replies : ℕ
max_padding_replies = 2

-- The second byte of a request is the number of replies, brought into 1 to 2.
abbrev pub replies_asked : List ℕ → ℕ
replies_asked (flag ∷ (m ∷ rest)) = min (max m 1) max_padding_replies
replies_asked _ = 1

abbrev pub reply_packets : ℕ → ℕ → ℕ → ℕ → List (List ℕ)
unfolding padding_reply_wire_len encode_padding_reply_sized
reply_packets drawn request_wire index zero = []
reply_packets drawn request_wire index (suc m) =
    encode_padding_reply_sized (padding_reply_wire_len drawn request_wire index)
    ∷ reply_packets drawn request_wire (index + 1) m

unfoldable pub padding_replies : ℕ → List ℕ → List (List ℕ)
unfolding reply_packets
padding_replies drawn payload =
    reply_packets drawn (frame_header_size + length payload + control_record_min_overhead) 0
      (replies_asked payload)
