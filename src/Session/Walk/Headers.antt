-- ===== src/Session/Walk/Headers.antt =====
-- The headers that a walk finds in encoded frames, and what a write that passes carries.
use kanotls.Prelude.{
  ℕ, zero, suc, ◌+◌, ◌≤◌, ◌≡◌, refl, sym, ap, ◌∙◌, List, [], ◌∷◌, ◌++◌, Bool, true, false,
  if◌then◌else◌, ◌==◌, ◌&&◌, ◌||◌, not, length, All, arith, concat, length-append, drop-append, map,
}
use kanotls.Frame.{Frame, cmd_psh}
use kanotls.Frame.RoundTrip.{wire}
use kanotls.Frame.Reader.Reassembly.{IsSendable, wires}
use kanotls.Session.{member}
use kanotls.Session.Walk.{
  Header, walk_loop, walk_frame_headers, is_protocol_control, after_header, visit, visit_packets,
  control_write_can_pass_through, some_cmd, carries_data, request_carries_stream_data,
}

abbrev pub header_of : Frame → Header
header_of f = record { cmd = f.cmd; stream_id = f.stream_id; frame_len = 7 + length f.payload }

walk_loop-wire :
    (fuel : ℕ) (f : Frame) (rest : List ℕ)
    → IsSendable f
    → walk_loop (suc fuel) (wire f ++ rest) ≡ header_of f ∷ walk_loop fuel rest
unfolding walk_loop
walk_loop-wire fuel f rest (v, h) = ground (
  arith,
  length-append f.payload rest,
  drop-append (7 + length f.payload) (wire f) rest (ground arith),
)

walk_loop-wires :
    (fuel : ℕ) (fs : List Frame)
    → All IsSendable fs
    → length (wires fs) ≤ fuel
    → walk_loop fuel (wires fs) ≡ map header_of fs
walk_loop-wires zero [] v h = unfold walk_loop in refl
walk_loop-wires (suc fuel) [] v h = unfold walk_loop in ground arith
walk_loop-wires zero (f ∷ fs) v h = absurd (omega (arith, h))
walk_loop-wires (suc fuel) (f ∷ fs) v h =
    walk_loop-wire fuel f (wires fs) v.0
    ∙ ap (λ hs. header_of f ∷ hs)
        (walk_loop-wires fuel fs v.1 (omega (arith, h, length-append f.payload (wires fs))))

visit-append :
    (pinned : List ℕ) (seen : Bool × Bool) (hs ks : List Header)
    → visit pinned seen (hs ++ ks) ≡ visit pinned (visit pinned seen hs) ks
unfolding visit
visit-append pinned seen [] ks = refl
visit-append pinned seen (h ∷ hs) ks = visit-append pinned (after_header pinned seen h) hs ks

map-append_headers :
    (fs gs : List Frame) → map header_of (fs ++ gs) ≡ map header_of fs ++ map header_of gs
map-append_headers [] gs = refl
map-append_headers (f ∷ fs) gs = ap (λ hs. header_of f ∷ hs) (map-append_headers fs gs)

visit_packets-wires :
    (pinned : List ℕ) (seen : Bool × Bool) (groups : List (List Frame))
    → All (All IsSendable) groups
    → visit_packets pinned seen (map wires groups)
      ≡ visit pinned seen (map header_of (concat groups))
unfolding visit_packets visit walk_frame_headers
visit_packets-wires pinned seen [] v = refl
visit_packets-wires pinned seen (fs ∷ groups) v =
    visit_packets-wires pinned (visit pinned seen (walk_frame_headers (wires fs))) groups v.1
    ∙ ap (λ hs. visit pinned (visit pinned seen hs) (map header_of (concat groups)))
        (walk_loop-wires (length (wires fs)) fs v.0 (omega arith))
    ∙ sym (visit-append pinned seen (map header_of fs) (map header_of (concat groups)))
    ∙ ap (λ hs. visit pinned seen hs) (sym (map-append_headers fs (concat groups)))

-- A frame of the protocol's control, of a stream that is not pinned.
abbrev pub may_pass : List ℕ → Frame → Bool
may_pass pinned f = is_protocol_control f.cmd && not (member f.stream_id pinned)

abbrev pub all_may_pass : List ℕ → List Frame → Bool
all_may_pass pinned [] = true
all_may_pass pinned (f ∷ fs) = may_pass pinned f && all_may_pass pinned fs

abbrev pub any_frame : List Frame → Bool
any_frame [] = false
any_frame (f ∷ fs) = true

visit-frames :
    (pinned : List ℕ) (seen : Bool × Bool) (fs : List Frame)
    → visit pinned seen (map header_of fs)
      ≡ (seen.0 || any_frame fs, seen.1 && all_may_pass pinned fs)
unfolding visit
visit-frames pinned seen [] = ground arith
visit-frames pinned seen (f ∷ fs) =
    visit-frames pinned (after_header pinned seen (header_of f)) fs ∙ ground arith

-- For packets that are whole encoded frames that fit their fields, a write may pass the delay
-- exactly if it has a frame, and each of its frames is a SYN, a FIN, SETTINGS or a SYNACK of a
-- stream that is not pinned.
pub control_write_can_pass_through-wires :
    (pinned_sids : List ℕ) (groups : List (List Frame))
    → All (All IsSendable) groups
    → control_write_can_pass_through (map wires groups) pinned_sids
      ≡ (any_frame (concat groups) && all_may_pass pinned_sids (concat groups))
unfolding control_write_can_pass_through
control_write_can_pass_through-wires pinned groups v =
    ap (λ r. r.0 && r.1)
      (visit_packets-wires pinned (false, true) groups v
        ∙ visit-frames pinned (false, true) (concat groups))

some_cmd-passed :
    (pinned : List ℕ) (seen : Bool × Bool) (flag : Bool) (hs : List Header)
    → (visit pinned seen hs).1 ≡ true
    → (seen.1 ≡ true) × (some_cmd (λ cmd. cmd == cmd_psh) flag hs ≡ flag)
unfolding visit
some_cmd-passed pinned seen flag [] e = (e, refl)
some_cmd-passed pinned seen flag (h ∷ hs) e =
    let next =
      some_cmd-passed pinned (after_header pinned seen h) (if h.cmd == cmd_psh then true else flag)
        hs e in
    ground (arith, next)

carries_data-passed :
    (pinned : List ℕ) (seen : Bool × Bool) (flag : Bool) (packets : List (List ℕ))
    → (visit_packets pinned seen packets).1 ≡ true
    → (seen.1 ≡ true) × (carries_data flag packets ≡ flag)
unfolding visit_packets walk_frame_headers
carries_data-passed pinned seen flag [] e = (e, refl)
carries_data-passed pinned seen flag (packet ∷ packets) e =
    let test : ℕ → Bool = λ cmd. cmd == cmd_psh in
    let hs = walk_frame_headers packet in
    let (still, rest) =
      carries_data-passed pinned (visit pinned seen hs) (some_cmd test flag hs) packets e in
    let (before, same) = some_cmd-passed pinned seen flag hs still in (before, rest ∙ same)

-- Whatever bytes its packets have, a write that may pass the delay carries no stream data, by the
-- test that would send it through the shaper.
pub control_write_can_pass_through-no_data :
    (packets : List (List ℕ)) (pinned_sids : List ℕ)
    → control_write_can_pass_through packets pinned_sids ≡ true
    → request_carries_stream_data packets ≡ false
unfolding control_write_can_pass_through request_carries_stream_data
control_write_can_pass_through-no_data packets pinned e =
    (carries_data-passed pinned (false, true) false packets (ground (arith, e))).1
