-- ===== src/Replay/Once.antt =====
-- A session's numbers over time: the code accepts none twice, and what `check` says is what `commit`
-- then does.
use kanotls.Prelude.{
  ℕ, ◌≡◌, refl, List, [], ◌∷◌, true, false, if◌then◌else◌, arith, Bool-cases, inl, inr,
}
use kanotls.Replay.{SlidingWindow, new_window, check, commit}
use kanotls.Replay.Window.{contains, is_fresh, Tracks, new_window-Tracks, commit-Tracks}

-- The numbers that a window accepts out of those that are presented, in order.
unfoldable pub accepted : SlidingWindow → List ℕ → List ℕ
accepted w [] = []
accepted w (s ∷ seqs) =
    let rest = accepted (commit w s).1 seqs in if (commit w s).0 then s ∷ rest else rest

abbrev pub Distinct : List ℕ → Type 0
Distinct [] = Unit {0}
Distinct (s ∷ seqs) = (contains s seqs ≡ false) × Distinct seqs

-- `check` answers as a `commit` of the same number does, on every window.
pub check-commit : (w : SlidingWindow) (seq : ℕ) → check w seq ≡ (commit w seq).0
unfolding check commit
check-commit w seq = ground arith

accepted_unseen :
    (w : SlidingWindow) (seen seqs : List ℕ) (s : ℕ)
    → Tracks w seen
    → contains s seen ≡ true
    → contains s (accepted w seqs) ≡ false
unfolding accepted
accepted_unseen w seen [] s t h = refl
accepted_unseen w seen (x ∷ seqs) s t h =
    let (answer, next, _) = commit-Tracks w seen x t in
    elim (Bool-cases (is_fresh seen x)) [
      | inl fresh ↦
          let more : Tracks (commit w x).1 (x ∷ seen) = rw fresh at next in
          ground (arith, answer, accepted_unseen (commit w x).1 (x ∷ seen) seqs s more)
      | inr stale ↦
          let same : Tracks (commit w x).1 seen = rw stale at next in
          ground (arith, answer, accepted_unseen (commit w x).1 seen seqs s same)
    ]

accepted-Distinct :
    (w : SlidingWindow) (seen seqs : List ℕ) → Tracks w seen → Distinct (accepted w seqs)
unfolding accepted
accepted-Distinct w seen [] t = tt
accepted-Distinct w seen (x ∷ seqs) t =
    let (answer, next, _) = commit-Tracks w seen x t in
    elim (Bool-cases (is_fresh seen x)) [
      | inl fresh ↦
          let more : Tracks (commit w x).1 (x ∷ seen) = rw fresh at next in
          rw (answer, fresh)
            (
              accepted_unseen (commit w x).1 (x ∷ seen) seqs x more (ground arith),
              accepted-Distinct (commit w x).1 (x ∷ seen) seqs more,
            )
      | inr stale ↦
          let same : Tracks (commit w x).1 seen = rw stale at next in
          rw (answer, stale) (accepted-Distinct (commit w x).1 seen seqs same)
    ]

-- From the first number of a session on, whatever numbers are presented, none is accepted twice.
pub accepted_once :
    (first : ℕ) (seqs : List ℕ) → Distinct (first ∷ accepted (new_window first) seqs)
accepted_once first seqs =
    let t = new_window-Tracks first in
    (
      accepted_unseen (new_window first) (first ∷ []) seqs first t (ground arith),
      accepted-Distinct (new_window first) (first ∷ []) seqs t,
    )
