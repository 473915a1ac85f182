-- ===== src/Frame/Coalesce.antt =====
-- crates/session/src/frame.rs, `coalesce_encoded_frames`: encoded frames joined into packets.
pub mod Groups
use kanotls.Prelude.{
  ℕ, ◌+◌, List, [], ◌∷◌, ◌++◌, if◌then◌else◌, ltb, ◌&&◌, not, length, Bool, true, false,
}

abbrev pub is_empty : List ℕ → Bool
is_empty [] = true
is_empty (b ∷ bs) = false

-- The packets that are done, and the one that is being filled.
pub record Packing : Type 0 where
  pub out : List (List ℕ)
  pub current : List ℕ

unfoldable pub flush : Packing → Packing
flush p =
    if not (is_empty p.current) then record { out = p.out ++ (p.current ∷ []); current = [] } else p

abbrev pub push_packet : Packing → List ℕ → Packing
push_packet p frame = record p { out = p.out ++ (frame ∷ []) }

abbrev pub extend : Packing → List ℕ → Packing
extend p frame = record p { current = p.current ++ frame }

-- One round of the loop.
unfoldable pub add_frame : ℕ → Packing → List ℕ → Packing
add_frame max_packet_len p frame =
    if ltb max_packet_len (length frame)
    then push_packet (flush p) frame
    else if ltb max_packet_len (length p.current + length frame) && not (is_empty p.current)
    then extend (flush p) frame
    else extend p frame

unfoldable pub add_frames : ℕ → Packing → List (List ℕ) → Packing
add_frames max_packet_len p [] = p
add_frames max_packet_len p (frame ∷ frames) =
    add_frames max_packet_len (add_frame max_packet_len p frame) frames

unfoldable pub pack : List (List ℕ) → ℕ → List (List ℕ)
pack frames max_packet_len =
    (flush (add_frames max_packet_len (record { out = []; current = [] }) frames)).out

-- A single frame that is not empty is returned as it is.
unfoldable pub coalesce_encoded_frames : List (List ℕ) → ℕ → List (List ℕ)
coalesce_encoded_frames [] max_packet_len = pack [] max_packet_len
coalesce_encoded_frames (frame ∷ []) max_packet_len =
    if not (is_empty frame) then frame ∷ [] else pack (frame ∷ []) max_packet_len
coalesce_encoded_frames (frame ∷ next ∷ frames) max_packet_len =
    pack (frame ∷ next ∷ frames) max_packet_len
