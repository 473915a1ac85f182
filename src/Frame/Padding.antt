-- ===== src/Frame/Padding.antt =====
-- crates/session/src/frame.rs: CMD_PADDING frames whose size on the wire is given, and the GOAWAY and
-- WINDOW_UPDATE payloads that they carry. The debug assertions on the target size are not modelled.
pub mod Sizes
pub mod Payloads
use kanotls.Prelude.{
  ℕ, ◌+◌, ◌-◌, List, [], ◌∷◌, ◌++◌, Option, none, some, if◌then◌else◌, ltb, leb, ◌==◌, ◌||◌, not,
  length, get_or, take, drop, replicate, Bool, true, false,
}
use kanotls.Prelude.Bytes.{
  as_u16, u16_to_be_bytes, u32_to_be_bytes, u16_from_be_bytes, u32_from_be_bytes,
}
use kanotls.Frame.{frame_header_size, cmd_padding}

abbrev pub padding_header_len : ℕ
padding_header_len = 2

abbrev pub padding_flag_request : ℕ
padding_flag_request = 0

abbrev pub padding_flag_reply : ℕ
padding_flag_reply = 1

abbrev pub padding_flag_goaway : ℕ
padding_flag_goaway = 2

abbrev pub padding_flag_window_update : ℕ
padding_flag_window_update = 3

abbrev pub goaway_last_stream_id_len : ℕ
goaway_last_stream_id_len = 4

abbrev pub window_update_increment_len : ℕ
window_update_increment_len = 4

-- Block length prefix, TLS record header, AEAD tag and inner content type.
abbrev pub control_record_min_overhead : ℕ
control_record_min_overhead = 2 + 5 + 16 + 1

abbrev pub min_padding_record_wire_len : ℕ
min_padding_record_wire_len = control_record_min_overhead + frame_header_size + padding_header_len

abbrev pub min_goaway_record_wire_len : ℕ
min_goaway_record_wire_len = min_padding_record_wire_len + goaway_last_stream_id_len

-- `saturating_sub`
abbrev pub padding_junk_len_for_wire : ℕ → ℕ
padding_junk_len_for_wire target_wire_len = target_wire_len - min_padding_record_wire_len

-- The bytes from `start` on are replaced, if the range lies within the list: `get_mut(range)` and
-- `copy_from_slice`.
abbrev pub overwrite : ℕ → List ℕ → List ℕ → List ℕ
overwrite start bytes dst =
    if leb (start + length bytes) (length dst)
    then take start dst ++ (bytes ++ drop (start + length bytes) dst)
    else dst

unfoldable pub encode_padding_frame_sized : ℕ → ℕ → ℕ → List ℕ
encode_padding_frame_sized flag m target_wire_len =
    let payload_len = padding_header_len + padding_junk_len_for_wire target_wire_len in
    cmd_padding
    ∷ (u32_to_be_bytes 0
        ++ (u16_to_be_bytes (as_u16 payload_len)
            ++ (flag ∷ m ∷ replicate (padding_junk_len_for_wire target_wire_len) 0)))

unfoldable pub encode_padding_request_sized : ℕ → ℕ → List ℕ
unfolding encode_padding_frame_sized
encode_padding_request_sized m target_wire_len =
    encode_padding_frame_sized padding_flag_request m target_wire_len

unfoldable pub encode_padding_reply_sized : ℕ → List ℕ
unfolding encode_padding_frame_sized
encode_padding_reply_sized target_wire_len =
    encode_padding_frame_sized padding_flag_reply 0 target_wire_len

unfoldable pub encode_padding_goaway_sized : ℕ → ℕ → List ℕ
unfolding encode_padding_frame_sized
encode_padding_goaway_sized last_stream_id target_wire_len =
    overwrite (frame_header_size + padding_header_len) (u32_to_be_bytes last_stream_id)
      (encode_padding_frame_sized padding_flag_goaway 0 target_wire_len)

unfoldable pub encode_padding_window_update_sized : ℕ → ℕ → ℕ → List ℕ
unfolding encode_padding_frame_sized
encode_padding_window_update_sized stream_id increment target_wire_len =
    overwrite (frame_header_size + padding_header_len) (u32_to_be_bytes increment) (
      overwrite 1 (u32_to_be_bytes stream_id)
        (encode_padding_frame_sized padding_flag_window_update 0 target_wire_len))

-- The four bytes behind `[flag, m]`, if the payload begins with the flag and holds them.
abbrev flagged_word : ℕ → ℕ → List ℕ → Option ℕ
flagged_word flag word_len [] = none
flagged_word flag word_len (b ∷ bs) =
    if not (b == flag)
    then none
    else if ltb (length (b ∷ bs)) (padding_header_len + word_len)
    then none
    else some (
        u32_from_be_bytes (get_or (b ∷ bs) 2 0) (get_or (b ∷ bs) 3 0) (get_or (b ∷ bs) 4 0)
          (get_or (b ∷ bs) 5 0))

unfoldable pub decode_padding_goaway : List ℕ → Option ℕ
decode_padding_goaway payload = flagged_word padding_flag_goaway goaway_last_stream_id_len payload

unfoldable pub decode_padding_window_update : List ℕ → Option ℕ
decode_padding_window_update payload =
    flagged_word padding_flag_window_update window_update_increment_len payload

-- The target size of a packet that is exactly one padding frame.
unfoldable pub self_sized_padding_wire_len : List ℕ → Option ℕ
self_sized_padding_wire_len packet =
    let payload_len = u16_from_be_bytes (get_or packet 5 0) (get_or packet 6 0) in
    if ltb (length packet) frame_header_size || not (get_or packet 0 0 == cmd_padding)
    then none
    else if not (frame_header_size + payload_len == length packet)
        || ltb payload_len padding_header_len
    then none
    else some (length packet + control_record_min_overhead)
