-- ===== src/Tests/Frames.antt =====
-- Runs of the frame codec (crates/session/src/frame.rs) and the theorems about it at concrete inputs.
use kanotls.Prelude.{
  ℕ, ◌≡◌, refl, List, [], ◌∷◌, ◌++◌, some, ok, err, true, arith, length, concat, ◌⊎◌, ◌≤◌, ◌<◌,
}
use kanotls.Frame.{
  Frame, IsFrame, encode, encode_psh_into, decode, cmd_psh, max_payload_len, payload_too_large,
}
use kanotls.Frame.RoundTrip.{wire, decode-encode, encode-decode, encode_cases}
use kanotls.Frame.Reader.{new_reader, read_loop}
use kanotls.Frame.Reader.Reassembly.{encode_all, read_loop-encode_all}
use kanotls.Frame.Psh.{encode_psh_frames}
use kanotls.Frame.Psh.Delivery.{Carries, read_loop-encode_psh_frames}
use kanotls.Frame.Coalesce.{coalesce_encoded_frames, pack, add_frames, add_frame, flush}
use kanotls.Frame.Coalesce.Groups.{IsGrouped, coalesce_encoded_frames-IsGrouped}

-- PSH on stream 258 with three bytes.
abbrev hello : Frame
hello = record { cmd = cmd_psh; stream_id = 258; payload = 104 ∷ 105 ∷ 33 ∷ [] }

abbrev hello_bytes : List ℕ
hello_bytes = 2 ∷ 0 ∷ 0 ∷ 1 ∷ 2 ∷ 0 ∷ 3 ∷ 104 ∷ 105 ∷ 33 ∷ []

hello-IsFrame : IsFrame hello
hello-IsFrame = omega arith

encode_runs : encode hello ≡ ok hello_bytes
unfolding encode
encode_runs = refl

decode-encode_example : decode (hello_bytes ++ (7 ∷ [])) ≡ (some hello, 7 ∷ [])
decode-encode_example = decode-encode hello hello_bytes (7 ∷ []) hello-IsFrame encode_runs

decode_runs : decode (hello_bytes ++ (7 ∷ [])) ≡ (some hello, 7 ∷ [])
unfolding decode
decode_runs = refl

encode-decode_example :
    (bytes : List ℕ) × (encode hello ≡ ok bytes) × (hello_bytes ++ (7 ∷ []) ≡ bytes ++ (7 ∷ []))
encode-decode_example =
    encode-decode (hello_bytes ++ (7 ∷ [])) (7 ∷ []) hello (omega arith) decode_runs

encode_cases_example :
    ((length hello.payload ≤ max_payload_len) × (encode hello ≡ ok (wire hello)))
    ⊎ ((max_payload_len < length hello.payload)
        × (encode hello ≡ err (payload_too_large (length hello.payload))))
encode_cases_example = encode_cases hello

-- The two frames in three reads, none of which ends where a frame does.
abbrev two_frames : List Frame
two_frames = hello ∷ hello ∷ []

abbrev reads : List (List ℕ)
reads =
    (2 ∷ 0 ∷ 0 ∷ 1 ∷ [])
    ∷ (2 ∷ 0 ∷ 3 ∷ 104 ∷ 105 ∷ 33 ∷ 2 ∷ 0 ∷ [])
    ∷ (0 ∷ 1 ∷ 2 ∷ 0 ∷ 3 ∷ 104 ∷ 105 ∷ 33 ∷ [])
    ∷ []

encode_all_runs : encode_all two_frames ≡ ok (concat reads)
unfolding encode_all encode
encode_all_runs = refl

read_loop-encode_all_example :
    read_loop new_reader reads ≡ record { buf = []; delivered = two_frames; is_open = true }
read_loop-encode_all_example =
    read_loop-encode_all two_frames reads (hello-IsFrame, (hello-IsFrame, tt)) (omega arith)
      encode_all_runs

encode_psh_frames_runs : encode_psh_frames 258 (104 ∷ 105 ∷ 33 ∷ []) ≡ ok (hello_bytes ∷ [])
unfolding encode_psh_frames encode_psh_into
encode_psh_frames_runs = refl

read_loop-encode_psh_frames_example :
    Carries 258 (104 ∷ 105 ∷ 33 ∷ []) (read_loop new_reader (hello_bytes ∷ [])).delivered
    × ((read_loop new_reader (hello_bytes ∷ [])).buf ≡ [])
    × ((read_loop new_reader (hello_bytes ∷ [])).is_open ≡ true)
read_loop-encode_psh_frames_example =
    read_loop-encode_psh_frames 258 (104 ∷ 105 ∷ 33 ∷ []) (hello_bytes ∷ []) (hello_bytes ∷ [])
      (omega arith) (omega arith) encode_psh_frames_runs (omega arith) refl

abbrev small_frames : List (List ℕ)
small_frames = (1 ∷ 2 ∷ []) ∷ (3 ∷ []) ∷ (4 ∷ 5 ∷ 6 ∷ 7 ∷ 8 ∷ []) ∷ (9 ∷ []) ∷ []

coalesce_runs :
    coalesce_encoded_frames small_frames 4
    ≡ (1 ∷ 2 ∷ 3 ∷ []) ∷ (4 ∷ 5 ∷ 6 ∷ 7 ∷ 8 ∷ []) ∷ (9 ∷ []) ∷ []
unfolding coalesce_encoded_frames pack add_frames add_frame flush
coalesce_runs = refl

coalesce_encoded_frames-IsGrouped_example :
    IsGrouped 4 small_frames (coalesce_encoded_frames small_frames 4)
coalesce_encoded_frames-IsGrouped_example =
    coalesce_encoded_frames-IsGrouped 4 small_frames (omega arith)
