-- ===== src/Session/Shaper.antt =====
-- crates/session/src/shaper.rs: the size and the fake responses of each data record. What is drawn at
-- random is an argument, and a delay is the one that was drawn.
pub mod Policies
use kanotls.Prelude.{
  ℕ, zero, suc, ◌+◌, ◌-◌, ◌^◌, ◌*◌, ◌/◌, ◌%◌, List, [], ◌∷◌, ◌++◌, Option, none, some, Bool, true,
  false, if◌then◌else◌, ltb, leb, ◌==◌, ◌&&◌, ◌||◌, not, min, max, length,
}
use kanotls.ControlSize.{FlowDirection, c2s, s2c, min_data_wire_len}
use kanotls.Session.Replies.{l1_max_wire_len}
use kanotls.Tunnel.Writing.{block_data_capacity, data_record_wire_len, max_data_record_wire_len}

abbrev pub bulk_fast_path_threshold : ℕ
bulk_fast_path_threshold = 256 * 1024 / 2

abbrev pub script_blend_window : ℕ
script_blend_window = 6

abbrev pub first_record_payload_lo : ℕ
first_record_payload_lo = 152

abbrev pub first_record_payload_hi : ℕ
first_record_payload_hi = 248

abbrev pub min_data_record_payload : ℕ
min_data_record_payload = l1_max_wire_len + 1 - min_data_wire_len

-- A rule's fake responses; its window and its delay stand in what is drawn.
pub record ScriptRule : Type 0 where
  pub expect_responses : ℕ

-- A deferred fake is its record's number and its responses.
pub record TrafficShaper : Type 0 where
  pub direction : FlowDirection
  pub packet_seq : ℕ
  pub script : List ScriptRule
  pub script_stop : ℕ
  pub deferred_fakes : List (ℕ × ℕ)
  pub post_script_off : Bool
  pub bulk_run : Bool

pub record ShapePolicy : Type 0 where
  pub target_wire_len : ℕ
  pub delay : ℕ
  pub fake : Option ℕ
  pub pre_fake : Option ℕ
  pub allow_full_block : Bool
  pub quiet_gap : Bool

-- Where a rule's fake responses go: before this record, after it, or after a later one.
pub data Offset : Type 0 where
  earlier : Offset
  here : Offset
  later : ℕ → Offset

-- What is drawn for one record. The blend is drawn when its probability is neither 0 nor 1.
pub record Drawn : Type 0 where
  pub first_payload : ℕ
  pub blends : Bool
  pub script_payload : ℕ
  pub script_delay : ℕ
  pub offset : Offset
  pub interactive_payload : ℕ

unfoldable pub begin_drain : TrafficShaper → TrafficShaper
begin_drain s = record s { bulk_run = false }

unfoldable pub advance : TrafficShaper → TrafficShaper
advance s = record s { packet_seq = min (s.packet_seq + 1) (2 ^ 64 - 1) }

abbrev pub responses_of : Option ℕ → ℕ
responses_of none = 0
responses_of (some n) = n

-- The scan of the deferred fakes: what is due, added to a total of 16 bits, and what is kept.
unfoldable pub release_loop : Bool → ℕ → ℕ → List (ℕ × ℕ) → ℕ × List (ℕ × ℕ)
release_loop past_script seq total [] = (total, [])
release_loop past_script seq total ((target, responses) ∷ fakes) =
    let due = past_script || leb target seq in
    let rest =
      release_loop past_script seq (if due then min (total + responses) 65535 else total) fakes in
    (rest.0, if due then rest.1 else (target, responses) ∷ rest.1)

abbrev pub is_empty : List (ℕ × ℕ) → Bool
is_empty [] = true
is_empty (x ∷ xs) = false

unfoldable pub release_due_fakes : TrafficShaper → ShapePolicy → TrafficShaper × ShapePolicy
unfolding release_loop
release_due_fakes s p =
    let past_script = leb s.script_stop s.packet_seq in
    let released = release_loop past_script s.packet_seq (responses_of p.fake) s.deferred_fakes in
    if is_empty s.deferred_fakes then (s, p) else (
      record s { deferred_fakes = released.1 },
      if ltb 0 released.0 then record p { fake = some (min released.0 255) } else p,
    )

abbrev pub plain_policy : ℕ → ShapePolicy
plain_policy target_wire_len = record {
  target_wire_len = target_wire_len;
  delay = 0;
  fake = none;
  pre_fake = none;
  allow_full_block = false;
  quiet_gap = false;
}

-- The rule of a record, by its number; the script is not empty here.
unfoldable pub rule_at : List ScriptRule → ℕ → ScriptRule
rule_at [] n = record { expect_responses = 0 }
rule_at (r ∷ rs) zero = r
rule_at (r ∷ rs) (suc n) = rule_at rs n

unfoldable pub place : Offset → ℕ → TrafficShaper → ShapePolicy → TrafficShaper × ShapePolicy
place earlier responses s p = (s, record p { pre_fake = some responses })
place here responses s p = (s, record p { fake = some responses })
place (later k) responses s p =
    (record s { deferred_fakes = s.deferred_fakes ++ (s.packet_seq + k, responses) ∷ [] }, p)

unfoldable pub script_policy : Drawn → TrafficShaper → TrafficShaper × ShapePolicy
unfolding rule_at place
script_policy d s =
    let rule = rule_at s.script (s.packet_seq % length s.script) in
    let floored = min (max d.script_payload min_data_record_payload) block_data_capacity in
    let policy : ShapePolicy = record (plain_policy (data_record_wire_len floored)) {
      delay = d.script_delay;
    } in
    if ltb 0 rule.expect_responses
    then place d.offset rule.expect_responses s policy
    else (s, policy)

unfoldable pub interactive_policy : Drawn → ShapePolicy
interactive_policy d = plain_policy (data_record_wire_len d.interactive_payload)

-- The probability of the script falls from 1 at its stop to 0 after the blend window.
abbrev pub takes_script : Drawn → TrafficShaper → Bool
takes_script d s =
    (if leb s.packet_seq s.script_stop
      then true
      else if leb script_blend_window (s.packet_seq - s.script_stop)
      then false
      else d.blends)
    && not (length s.script == 0)

unfoldable pub choose_policy : Drawn → ℕ → TrafficShaper → TrafficShaper × ShapePolicy
unfolding script_policy interactive_policy
choose_policy d pending_len s =
    if s.packet_seq == 0 && (elim s.direction [ c2s ↦ true | s2c ↦ false ])
    then (
      s,
      record (plain_policy (data_record_wire_len d.first_payload)) {
        quiet_gap = not s.post_script_off;
      },
    )
    else if leb bulk_fast_path_threshold pending_len || leb block_data_capacity pending_len
    then (
      record s { bulk_run = true },
      record (plain_policy max_data_record_wire_len) { allow_full_block = true },
    )
    else if s.bulk_run && ltb pending_len block_data_capacity
    then (record s { bulk_run = false }, plain_policy (data_record_wire_len pending_len))
    else if s.post_script_off && leb s.script_stop s.packet_seq
    then (s, plain_policy (data_record_wire_len pending_len))
    else if takes_script d s
    then script_policy d s
    else (s, interactive_policy d)

-- Every branch ends by releasing the fakes that are due.
unfoldable pub next_data_policy : Drawn → ℕ → TrafficShaper → TrafficShaper × ShapePolicy
unfolding choose_policy release_due_fakes
next_data_policy d pending_len s =
    let (s', p) = choose_policy d pending_len s in release_due_fakes s' p
