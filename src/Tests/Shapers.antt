-- ===== src/Tests/Shapers.antt =====
-- Runs of the shaper (crates/session/src/shaper.rs), and the theorems about it at concrete inputs.
use kanotls.Prelude.{◌≡◌, refl, [], ◌∷◌, some, true, false, leb, arith, All}
use kanotls.ControlSize.{c2s}
use kanotls.Tunnel.Writing.{max_data_record_wire_len}
use kanotls.Session.Shaper.{
  TrafficShaper, Drawn, later, begin_drain, advance, rule_at, place, release_loop,
  release_due_fakes, script_policy, choose_policy, next_data_policy,
}
use kanotls.Session.Shaper.Policies.{
  IsDrawn, IsSized, IsLater, next_data_policy_sizes, next_data_policy_due,
}

abbrev drawn : Drawn
drawn = record {
  first_payload = 200;
  blends = true;
  script_payload = 100;
  script_delay = 3;
  offset = later 2;
  interactive_payload = 500;
}

-- Record 1 of a client with a script of two rules; two fakes wait, and one of them is due.
abbrev shaper : TrafficShaper
shaper = record {
  direction = c2s;
  packet_seq = 1;
  script = record { expect_responses = 0 } ∷ record { expect_responses = 2 } ∷ [];
  script_stop = 8;
  deferred_fakes = (4, 1) ∷ (1, 5) ∷ [];
  post_script_off = false;
  bulk_run = false;
}

drawn-IsDrawn : IsDrawn drawn
drawn-IsDrawn = record {
  first_lo = ground arith;
  first_hi = ground arith;
  interactive_lo = ground arith;
  interactive_hi = ground arith;
}

-- The script's record is raised over the class of small records.
script_record : (next_data_policy drawn 900 shaper).1.target_wire_len ≡ 161
unfolding next_data_policy choose_policy script_policy release_due_fakes release_loop rule_at place
script_record = refl

script_fakes : (next_data_policy drawn 900 shaper).1.fake ≡ some 5
unfolding next_data_policy choose_policy script_policy release_due_fakes release_loop rule_at place
script_fakes = refl

script_deferred : (next_data_policy drawn 900 shaper).0.deferred_fakes ≡ (4, 1) ∷ (3, 2) ∷ []
unfolding next_data_policy choose_policy script_policy release_due_fakes release_loop rule_at place
script_deferred = refl

-- Much that waits goes out in full records, and what is left at its size, in the same drain only.
bulk_record : (next_data_policy drawn 200000 shaper).1.target_wire_len ≡ max_data_record_wire_len
unfolding next_data_policy choose_policy release_due_fakes release_loop
bulk_record = refl

bulk_tail :
    (next_data_policy drawn 90 (advance (next_data_policy drawn 200000 shaper).0)).1.target_wire_len
    ≡ 114
unfolding next_data_policy choose_policy script_policy release_due_fakes release_loop rule_at place
    advance
bulk_tail = refl

bulk_drained :
    (next_data_policy drawn 90
      (begin_drain (next_data_policy drawn 200000 shaper).0)).1.target_wire_len
    ≡ 161
unfolding next_data_policy choose_policy script_policy release_due_fakes release_loop rule_at place
    begin_drain
bulk_drained = refl

next_data_policy_sizes_example : IsSized 900 (next_data_policy drawn 900 shaper).1
next_data_policy_sizes_example = next_data_policy_sizes drawn 900 shaper drawn-IsDrawn

next_data_policy_due_example :
    All
      (IsLater (leb shaper.script_stop shaper.packet_seq) shaper.packet_seq)
      (next_data_policy drawn 900 shaper).0.deferred_fakes
next_data_policy_due_example = next_data_policy_due drawn 900 shaper
