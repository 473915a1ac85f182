-- ===== src/Session/Shaper/Policies.antt =====
-- The sizes and the fakes of the policies.
use kanotls.Prelude.{
  ℕ, ◌+◌, ◌%◌, length, ◌≤◌, ◌<◌, ◌≡◌, ◌⊎◌, inl, inr, refl, List, [], ◌∷◌, Bool, true, false,
  Bool-cases, ltb, leb, min, max, arith, All,
}
use kanotls.Session.Replies.{l1_max_wire_len}
use kanotls.Tunnel.Writing.{block_data_capacity, data_record_wire_len, max_data_record_wire_len}
use kanotls.Session.Shaper.{
  rule_at, is_empty, responses_of, TrafficShaper, ShapePolicy, Drawn, Offset, earlier, here, later,
  release_loop, release_due_fakes, place, script_policy, interactive_policy, choose_policy,
  next_data_policy, first_record_payload_lo, first_record_payload_hi, min_data_record_payload,
}

-- What the generators draw from.
pub record IsDrawn (d : Drawn) : Type 0 where
  pub first_lo : first_record_payload_lo ≤ d.first_payload
  pub first_hi : d.first_payload ≤ first_record_payload_hi
  pub interactive_lo : min_data_record_payload ≤ d.interactive_payload
  pub interactive_hi : d.interactive_payload ≤ block_data_capacity

abbrev pub IsSized : ℕ → ShapePolicy → Type 0
IsSized pending_len p =
    ((l1_max_wire_len < p.target_wire_len) ⊎ (p.target_wire_len ≡ data_record_wire_len pending_len))
    × (p.target_wire_len ≤ max_data_record_wire_len)

-- Where the fake responses go leaves the size alone.
place_size :
    (o : Offset) (n : ℕ) (s : TrafficShaper) (p : ShapePolicy)
    → (place o n s p).1.target_wire_len ≡ p.target_wire_len
unfolding place
place_size earlier n s p = refl
place_size here n s p = refl
place_size (later k) n s p = refl

floored_sizes :
    (n : ℕ)
    → (l1_max_wire_len
        < data_record_wire_len (min (max n min_data_record_payload) block_data_capacity))
      × (data_record_wire_len (min (max n min_data_record_payload) block_data_capacity)
          ≤ max_data_record_wire_len)
floored_sizes n = (omega arith, omega arith)

script_policy_size :
    (d : Drawn) (s : TrafficShaper)
    → (script_policy d s).1.target_wire_len
      ≡ data_record_wire_len
          (min (max d.script_payload min_data_record_payload) block_data_capacity)
unfolding script_policy
script_policy_size d s =
    elim (Bool-cases (ltb 0 (rule_at s.script (s.packet_seq % length s.script)).expect_responses)) [
      | inl e ↦ rw e (place_size _ _ s _)
      | inr e ↦ rw e (refl)
    ]

choose_policy_sizes :
    (d : Drawn) (pending_len : ℕ) (s : TrafficShaper)
    → IsDrawn d
    → IsSized pending_len (choose_policy d pending_len s).1
unfolding choose_policy interactive_policy
choose_policy_sizes d pending_len s h =
    let size = script_policy_size d s in
    let floored = floored_sizes d.script_payload in ground arith

release_due_fakes_size :
    (s : TrafficShaper) (p : ShapePolicy)
    → (release_due_fakes s p).1.target_wire_len ≡ p.target_wire_len
unfolding release_due_fakes
release_due_fakes_size s p = ground arith

-- Whatever state the shaper is in, a data record's target is no more than a full record's size, and
-- it is over the class of small records or exactly the size of what waits, if what is drawn for a
-- first record and for an interactive one lies in its window.
pub next_data_policy_sizes :
    (d : Drawn) (pending_len : ℕ) (s : TrafficShaper)
    → IsDrawn d
    → IsSized pending_len (next_data_policy d pending_len s).1
unfolding next_data_policy
next_data_policy_sizes d pending_len s h =
    rw (release_due_fakes_size (choose_policy d pending_len s).0 (choose_policy d pending_len s).1)
      (choose_policy_sizes d pending_len s h)

-- What is kept is due at a later record, and nothing is kept past the script.
abbrev pub IsLater : Bool → ℕ → ℕ × ℕ → Type 0
IsLater past_script seq fake = (past_script ≡ false) × (seq < fake.0)

release_loop-IsLater :
    (past_script : Bool) (seq total : ℕ) (fakes : List (ℕ × ℕ))
    → All (IsLater past_script seq) (release_loop past_script seq total fakes).1
unfolding release_loop
release_loop-IsLater past_script seq total [] = tt
release_loop-IsLater true seq total (fake ∷ fakes) = release_loop-IsLater true seq _ fakes
release_loop-IsLater false seq total ((target, responses) ∷ fakes) =
    elim (Bool-cases (leb target seq)) [
      | inl e ↦ rw e (release_loop-IsLater false seq (min (total + responses) 65535) fakes)
      | inr e ↦ rw e ((refl, ground arith), release_loop-IsLater false seq total fakes)
    ]

is_empty_lem : (fakes : List (ℕ × ℕ)) → is_empty fakes ≡ true → fakes ≡ []
is_empty_lem [] h = refl
is_empty_lem (x ∷ xs) h = ground arith

release_due_fakes-IsLater :
    (s : TrafficShaper) (p : ShapePolicy)
    → All
        (IsLater (leb s.script_stop s.packet_seq) s.packet_seq)
        (release_due_fakes s p).0.deferred_fakes
unfolding release_due_fakes
release_due_fakes-IsLater s p = elim (Bool-cases (is_empty s.deferred_fakes)) [
  | inl e ↦ rw e (rw (is_empty_lem s.deferred_fakes e) tt)
  | inr e ↦ rw e (
      release_loop-IsLater (leb s.script_stop s.packet_seq) s.packet_seq (responses_of p.fake)
        s.deferred_fakes)
]

-- The choice of a size moves neither the record's number nor the script's end.
place_same :
    (o : Offset) (n : ℕ) (s : TrafficShaper) (p : ShapePolicy)
    → ((place o n s p).0.packet_seq ≡ s.packet_seq)
      × ((place o n s p).0.script_stop ≡ s.script_stop)
unfolding place
place_same earlier n s p = (refl, refl)
place_same here n s p = (refl, refl)
place_same (later k) n s p = (refl, refl)

script_policy_same :
    (d : Drawn) (s : TrafficShaper)
    → ((script_policy d s).0.packet_seq ≡ s.packet_seq)
      × ((script_policy d s).0.script_stop ≡ s.script_stop)
unfolding script_policy
script_policy_same d s =
    elim (Bool-cases (ltb 0 (rule_at s.script (s.packet_seq % length s.script)).expect_responses)) [
      | inl e ↦ rw e (place_same _ _ s _)
      | inr e ↦ rw e ((refl, refl))
    ]

choose_policy_same :
    (d : Drawn) (pending_len : ℕ) (s : TrafficShaper)
    → ((choose_policy d pending_len s).0.packet_seq ≡ s.packet_seq)
      × ((choose_policy d pending_len s).0.script_stop ≡ s.script_stop)
unfolding choose_policy
choose_policy_same d pending_len s = let script = script_policy_same d s in ground arith

same_due :
    (stop seq stop' seq' : ℕ)
    → stop ≡ stop'
    → seq ≡ seq'
    → (fakes : List (ℕ × ℕ)) → All (IsLater (leb stop seq) seq) fakes
    → All (IsLater (leb stop' seq') seq') fakes
same_due stop seq stop' seq' e f fakes h = rw (← e, ← f) h

-- After a policy only the fake responses of later records are deferred, and none once the script is
-- over.
pub next_data_policy_due :
    (d : Drawn) (pending_len : ℕ) (s : TrafficShaper)
    → All
        (IsLater (leb s.script_stop s.packet_seq) s.packet_seq)
        (next_data_policy d pending_len s).0.deferred_fakes
unfolding next_data_policy
next_data_policy_due d pending_len s =
    let same = choose_policy_same d pending_len s in
    same_due (choose_policy d pending_len s).0.script_stop
      (choose_policy d pending_len s).0.packet_seq s.script_stop s.packet_seq same.1 same.0
      (next_data_policy d pending_len s).0.deferred_fakes
      (release_due_fakes-IsLater (choose_policy d pending_len s).0
        (choose_policy d pending_len s).1)
