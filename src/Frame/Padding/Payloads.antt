-- ===== src/Frame/Padding/Payloads.antt =====
-- What the reader gets out of the padding frames of the other side.
use kanotls.Prelude.{
  ℕ, ◌-◌, ◌≤◌, ◌≡◌, ap, List, ◌∷◌, ◌++◌, none, some, arith, length, drop, replicate,
  length-replicate, leb, if◌then◌else◌, ◌∙◌,
}
use kanotls.Prelude.Bytes.{AllBytes, IsByte, IsU32, u32_to_be_bytes}
use kanotls.Frame.{Frame, IsFrame, decode, max_payload_len, cmd_padding}
use kanotls.Frame.RoundTrip.{wire, decode-wire}
use kanotls.Frame.Padding.{
  min_goaway_record_wire_len, encode_padding_goaway_sized, encode_padding_window_update_sized,
  decode_padding_goaway, decode_padding_window_update, padding_flag_goaway,
  padding_flag_window_update,
}
use kanotls.Frame.Padding.Sizes.{IsTarget}

abbrev pub zeros : ℕ → List ℕ
zeros n = replicate n 0

zeros-AllBytes : (n : ℕ) → AllBytes (zeros n)
zeros-AllBytes ℕ.zero = tt
zeros-AllBytes (ℕ.suc n) = (omega arith, zeros-AllBytes n)

-- The frame of a padding packet that carries a word, with the junk that is left behind it.
abbrev pub word_frame : ℕ → ℕ → ℕ → ℕ → Frame
word_frame flag sid word w = record {
  cmd = cmd_padding;
  stream_id = sid;
  payload = flag ∷ 0 ∷ (u32_to_be_bytes word ++ zeros (w - 37));
}

drop-zeros : (k n : ℕ) → drop k (zeros n) ≡ zeros (n - k)
drop-zeros ℕ.zero n = let e : n ≡ n - 0 = omega arith in ap zeros e
drop-zeros (ℕ.suc k) ℕ.zero = let e : 0 ≡ 0 - ℕ.suc k = omega arith in ap zeros e
drop-zeros (ℕ.suc k) (ℕ.suc n) =
    let e : n - k ≡ ℕ.suc n - ℕ.suc k = omega arith in drop-zeros k n ∙ ap zeros e

-- The same where the target leaves no room for the word.
abbrev bare_frame : ℕ → ℕ → ℕ → Frame
bare_frame flag sid w = record {
  cmd = cmd_padding;
  stream_id = sid;
  payload = flag ∷ 0 ∷ zeros (w - 33);
}

abbrev sent_frame : ℕ → ℕ → ℕ → ℕ → Frame
sent_frame flag sid word w =
    if leb min_goaway_record_wire_len w then word_frame flag sid word w else bare_frame flag sid w

goaway-wire :
    (word w : ℕ)
    → IsTarget w
    → encode_padding_goaway_sized word w ≡ wire (sent_frame padding_flag_goaway 0 word w)
unfolding encode_padding_goaway_sized
goaway-wire word w h = ground (
  arith,
  length-replicate {A = ℕ} (w - 33) 0,
  length-replicate {A = ℕ} (w - 37) 0,
  drop-zeros 4 (w - 33),
)

window_update-wire :
    (sid word w : ℕ)
    → IsTarget w
    → encode_padding_window_update_sized sid word w
      ≡ wire (sent_frame padding_flag_window_update sid word w)
unfolding encode_padding_window_update_sized
window_update-wire sid word w h = ground (
  arith,
  length-replicate {A = ℕ} (w - 33) 0,
  length-replicate {A = ℕ} (w - 37) 0,
  drop-zeros 4 (w - 33),
)

sent_frame-IsFrame :
    (flag sid word w : ℕ) → IsByte flag → IsU32 sid → IsFrame (sent_frame flag sid word w)
sent_frame-IsFrame flag sid word w hf hs =
    ground (arith, zeros-AllBytes (w - 33), zeros-AllBytes (w - 37))

sent_frame_fits :
    (flag sid word w : ℕ)
    → IsTarget w
    → length (sent_frame flag sid word w).payload ≤ max_payload_len
sent_frame_fits flag sid word w h =
    ground (arith, length-replicate {A = ℕ} (w - 33) 0, length-replicate {A = ℕ} (w - 37) 0)

-- The reader of a GOAWAY packet gets one padding frame of stream 0 and finds the id in it, unless the
-- target size left no room for the id: then it finds none, and never a wrong one. It never takes the
-- frame for a WINDOW_UPDATE.
pub goaway_received :
    (word w : ℕ) (rest : List ℕ)
    → IsU32 word
    → IsTarget w
    → (f : Frame) × (decode (encode_padding_goaway_sized word w ++ rest) ≡ (some f, rest))
      × (f.cmd ≡ cmd_padding)
      × (f.stream_id ≡ 0)
      × (decode_padding_goaway f.payload
          ≡ (if leb min_goaway_record_wire_len w then some word else none))
      × (decode_padding_window_update f.payload ≡ none)
unfolding decode_padding_goaway decode_padding_window_update
goaway_received word w rest hw h =
    let f = sent_frame padding_flag_goaway 0 word w in
    (
      f,
      rw (goaway-wire word w h) (
          decode-wire f rest
            (sent_frame-IsFrame padding_flag_goaway 0 word w (omega arith) (omega arith))
            (sent_frame_fits padding_flag_goaway 0 word w h)),
      ground arith,
      ground arith,
      ground (arith, length-replicate {A = ℕ} (w - 33) 0),
      ground arith,
    )

-- The reader of a WINDOW_UPDATE packet gets one padding frame of the stream that the credit is for and
-- finds the increment in it, unless the target size left no room for it: then it finds none. It never
-- takes the frame for a GOAWAY.
pub window_update_received :
    (sid word w : ℕ) (rest : List ℕ)
    → IsU32 sid
    → IsU32 word
    → IsTarget w
    → (f : Frame) × (decode (encode_padding_window_update_sized sid word w ++ rest)
        ≡ (some f, rest))
      × (f.cmd ≡ cmd_padding)
      × (f.stream_id ≡ sid)
      × (decode_padding_window_update f.payload
          ≡ (if leb min_goaway_record_wire_len w then some word else none))
      × (decode_padding_goaway f.payload ≡ none)
unfolding decode_padding_goaway decode_padding_window_update
window_update_received sid word w rest hs hw h =
    let f = sent_frame padding_flag_window_update sid word w in
    (
      f,
      rw (window_update-wire sid word w h) (
          decode-wire f rest
            (sent_frame-IsFrame padding_flag_window_update sid word w (omega arith) hs)
            (sent_frame_fits padding_flag_window_update sid word w h)),
      ground arith,
      ground arith,
      ground (arith, length-replicate {A = ℕ} (w - 33) 0),
      ground arith,
    )
