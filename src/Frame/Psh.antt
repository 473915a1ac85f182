-- ===== src/Frame/Psh.antt =====
-- crates/session/src/frame.rs, `encode_psh_frames`: a long write as a sequence of PSH frames.
pub mod Delivery
use kanotls.Prelude.{
  ℕ, zero, suc, ◌+◌, ◌-◌, ◌*◌, ◌≤◌, ◌<◌, ◌≡◌, refl, sym, ap, ◌∙◌, List, [], ◌∷◌, ◌++◌, none, some,
  Result, ok, err, ◌>>=◌, arith, length, All, concat, map, take, drop, take-append-drop,
  length-take, length-drop, min, All-take, All-drop, length-append,
}
use kanotls.Frame.{Frame, FrameError, IsFrame, encode, encode_psh_into, max_payload_len, cmd_psh}
use kanotls.Prelude.Bytes.{IsU32, AllBytes, IsByte}

-- `slice::chunks`, on fuel: pieces of `n` bytes, and a last one that may be shorter.
pub chunks : ℕ → ℕ → List ℕ → List (List ℕ)
chunks zero n xs = []
chunks (suc fuel) n [] = []
chunks (suc fuel) n (x ∷ xs) = take n (x ∷ xs) ∷ chunks fuel n (drop n (x ∷ xs))

pub encode_chunks : ℕ → List (List ℕ) → Result FrameError (List (List ℕ))
encode_chunks stream_id [] = ok []
encode_chunks stream_id (chunk ∷ rest) = do
  packet ← encode_psh_into [] stream_id chunk
  packets ← encode_chunks stream_id rest
  ok (packet ∷ packets)

-- Each chunk takes a byte at least, so the data's length is fuel enough.
unfoldable pub encode_psh_frames : ℕ → List ℕ → Result FrameError (List (List ℕ))
unfolding chunks encode_chunks
encode_psh_frames stream_id data_bytes =
    encode_chunks stream_id (chunks (length data_bytes) max_payload_len data_bytes)
