-- ===== src/Frame.antt =====
-- crates/session/src/frame.rs: the frames of a session, and the encoders of single frames. A buffer
-- is the list of its bytes; `Bytes` and `BytesMut` share storage between a buffer and the payloads
-- cut from it, which no result of these functions shows.
pub mod RoundTrip
pub mod Reader
pub mod Psh
pub mod Coalesce
pub mod Padding
use kanotls.Prelude.{
  ℕ, ◌+◌, List, [], ◌∷◌, ◌++◌, Option, none, some, Result, ok, err, if◌then◌else◌, ltb, leb, length,
  get_or, take, drop,
}
use kanotls.Prelude.Bytes.{
  as_u16, u16_to_be_bytes, u32_to_be_bytes, u16_from_be_bytes, u32_from_be_bytes, IsByte, IsU32,
  AllBytes,
}

abbrev pub frame_header_size : ℕ
frame_header_size = 7

abbrev pub max_payload_len : ℕ
max_payload_len = 65535

abbrev pub zero_copy_payload_min : ℕ
zero_copy_payload_min = 16384

abbrev pub cmd_syn : ℕ
cmd_syn = 1

abbrev pub cmd_psh : ℕ
cmd_psh = 2

abbrev pub cmd_fin : ℕ
cmd_fin = 3

abbrev pub cmd_settings : ℕ
cmd_settings = 4

abbrev pub cmd_synack : ℕ
cmd_synack = 7

abbrev pub cmd_padding : ℕ
cmd_padding = 8

pub record Frame : Type 0 where
  pub cmd : ℕ
  pub stream_id : ℕ
  pub payload : List ℕ

-- The ranges of the fields' types: u8, u32 and bytes.
pub record IsFrame (f : Frame) : Type 0 where
  pub cmd_range : IsByte f.cmd
  pub id_range : IsU32 f.stream_id
  pub payload_range : AllBytes f.payload

-- "frame payload too large: {len} > {max}"
pub data FrameError : Type 0 where
  payload_too_large : ℕ → FrameError

unfoldable pub encode : Frame → Result FrameError (List ℕ)
encode f =
    if ltb max_payload_len (length f.payload)
    then err (payload_too_large (length f.payload))
    else ok (
        f.cmd
        ∷ (u32_to_be_bytes f.stream_id
            ++ (u16_to_be_bytes (as_u16 (length f.payload)) ++ f.payload)))

-- The bytes are appended to `dst`; an error leaves `dst` as it was.
unfoldable pub encode_psh_into : List ℕ → ℕ → List ℕ → Result FrameError (List ℕ)
encode_psh_into dst stream_id payload =
    if ltb max_payload_len (length payload)
    then err (payload_too_large (length payload))
    else ok (
        dst
        ++ (cmd_psh
            ∷ (u32_to_be_bytes stream_id
                ++ (u16_to_be_bytes (as_u16 (length payload)) ++ payload))))

unfoldable pub encode_psh : ℕ → List ℕ → Result FrameError (List ℕ)
unfolding encode_psh_into
encode_psh stream_id payload = encode_psh_into [] stream_id payload

abbrev pub encoded_len : ℕ → ℕ
encoded_len payload_len = frame_header_size + payload_len

-- Both leave in the buffer what follows the bytes that they take.
abbrev split_to : ℕ → List ℕ → List ℕ × List ℕ
split_to n src = (take n src, drop n src)

abbrev copy_and_advance : ℕ → List ℕ → List ℕ × List ℕ
copy_and_advance n src = (take n src, drop n src)

abbrev take_payload : ℕ → List ℕ → List ℕ × List ℕ
take_payload data_len src =
    if leb zero_copy_payload_min data_len
    then split_to data_len src
    else copy_and_advance data_len src

-- The length field of a buffer that holds a header.
abbrev pub data_len_of : List ℕ → ℕ
data_len_of src = u16_from_be_bytes (get_or src 5 0) (get_or src 6 0)

-- The frame, if the buffer holds a whole one, and the buffer afterwards.
unfoldable pub decode : List ℕ → Option Frame × List ℕ
decode src =
    let data_len = data_len_of src in
    let taken = take_payload data_len (drop frame_header_size src) in
    if ltb (length src) frame_header_size
    then (none, src)
    else if ltb (length src) (frame_header_size + data_len)
    then (none, src)
    else (
      some (record {
        cmd = get_or src 0 0;
        stream_id =
            u32_from_be_bytes (get_or src 1 0) (get_or src 2 0) (get_or src 3 0) (get_or src 4 0);
        payload = taken.0;
      }),
      taken.1,
    )
