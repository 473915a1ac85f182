-- ===== src/Session/Walk.antt =====
-- crates/session/src/session.rs: what the writer's task finds out about a write from the frame headers in
-- its packets, in the delay before a record and in front of the shaper.
pub mod Headers
use kanotls.Prelude.{
  ℕ, zero, suc, ◌+◌, List, [], ◌∷◌, Bool, true, false, if◌then◌else◌, ltb, ◌==◌, ◌&&◌, ◌||◌, not,
  length, drop, get_or,
}
use kanotls.Prelude.Bytes.{u32_from_be_bytes}
use kanotls.Frame.{
  frame_header_size, data_len_of, cmd_psh, cmd_syn, cmd_fin, cmd_settings, cmd_synack,
}
use kanotls.Session.{member}

-- What `walk_frame_headers` calls back with.
pub record Header : Type 0 where
  pub cmd : ℕ
  pub stream_id : ℕ
  pub frame_len : ℕ

unfoldable pub walk_loop : ℕ → List ℕ → List Header
walk_loop zero buf = []
walk_loop (suc fuel) buf =
    let frame_len = frame_header_size + data_len_of buf in
    let rest = walk_loop fuel (drop frame_len buf) in
    if ltb (length buf) frame_header_size
    then []
    else if ltb (length buf) frame_len
    then []
    else record {
      cmd = get_or buf 0 0;
      stream_id =
          u32_from_be_bytes (get_or buf 1 0) (get_or buf 2 0) (get_or buf 3 0) (get_or buf 4 0);
      frame_len = frame_len;
    }
      ∷ rest

-- A frame has seven bytes at least, so the buffer's length is fuel enough.
unfoldable pub walk_frame_headers : List ℕ → List Header
unfolding walk_loop
walk_frame_headers buf = walk_loop (length buf) buf

abbrev pub is_protocol_control : ℕ → Bool
is_protocol_control cmd =
    (cmd == cmd_syn) || ((cmd == cmd_fin) || ((cmd == cmd_settings) || (cmd == cmd_synack)))

-- `saw_frame` and `pass` after a header, and after the headers of a packet.
abbrev pub after_header : List ℕ → Bool × Bool → Header → Bool × Bool
after_header pinned_sids seen h = (
  true,
  if not (is_protocol_control h.cmd) || member h.stream_id pinned_sids then false else seen.1,
)

unfoldable pub visit : List ℕ → Bool × Bool → List Header → Bool × Bool
visit pinned_sids seen [] = seen
visit pinned_sids seen (h ∷ hs) = visit pinned_sids (after_header pinned_sids seen h) hs

unfoldable pub visit_packets : List ℕ → Bool × Bool → List (List ℕ) → Bool × Bool
unfolding walk_frame_headers visit
visit_packets pinned_sids seen [] = seen
visit_packets pinned_sids seen (packet ∷ packets) =
    visit_packets pinned_sids (visit pinned_sids seen (walk_frame_headers packet)) packets

unfoldable pub control_write_can_pass_through : List (List ℕ) → List ℕ → Bool
unfolding visit_packets
control_write_can_pass_through packets pinned_sids =
    let seen = visit_packets pinned_sids (false, true) packets in seen.0 && seen.1

-- The flag that a visit of the headers sets.
abbrev pub some_cmd : (ℕ → Bool) → Bool → List Header → Bool
some_cmd test flag [] = flag
some_cmd test flag (h ∷ hs) = some_cmd test (if test h.cmd then true else flag) hs

unfoldable pub packet_carries_stream_lifecycle_frame : List ℕ → Bool
unfolding walk_frame_headers
packet_carries_stream_lifecycle_frame packet =
    some_cmd (λ cmd. (cmd == cmd_syn) || (cmd == cmd_fin)) false (walk_frame_headers packet)

abbrev pub carries_data : Bool → List (List ℕ) → Bool
unfolding walk_frame_headers
carries_data flag [] = flag
carries_data flag (packet ∷ packets) =
    carries_data (some_cmd (λ cmd. cmd == cmd_psh) flag (walk_frame_headers packet)) packets

unfoldable pub request_carries_stream_data : List (List ℕ) → Bool
unfolding carries_data
request_carries_stream_data packets = carries_data false packets
