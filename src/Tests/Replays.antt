-- ===== src/Tests/Replays.antt =====
-- Runs of the replay window (crates/tunnel/src/server/replay.rs) and the theorems about it at concrete
-- inputs.
use kanotls.Prelude.{◌≡◌, refl, [], ◌∷◌, if◌then◌else◌}
use kanotls.Replay.{new_window, commit}
use kanotls.Replay.Window.{is_fresh, Tracks, new_window-Tracks, commit-Tracks}
use kanotls.Replay.Once.{accepted, Distinct, accepted_once}

commit-Tracks_example :
    ((commit (new_window 5) 9).0 ≡ is_fresh (5 ∷ []) 9)
    × Tracks (commit (new_window 5) 9).1 (if is_fresh (5 ∷ []) 9 then 9 ∷ 5 ∷ [] else 5 ∷ [])
    × ((commit (new_window 5) 9).1
        ≡ (if is_fresh (5 ∷ []) 9 then (commit (new_window 5) 9).1 else new_window 5))
commit-Tracks_example = commit-Tracks (new_window 5) (5 ∷ []) 9 (new_window-Tracks 5)

accepted_once_example : Distinct (5 ∷ accepted (new_window 5) (9 ∷ 5 ∷ 4 ∷ 9 ∷ 100 ∷ 30 ∷ []))
accepted_once_example = accepted_once 5 (9 ∷ 5 ∷ 4 ∷ 9 ∷ 100 ∷ 30 ∷ [])

-- Out of order is accepted, repeated and too old is not.
accepted_runs : accepted (new_window 5) (9 ∷ 5 ∷ 4 ∷ 9 ∷ 100 ∷ 30 ∷ []) ≡ 9 ∷ 4 ∷ 100 ∷ []
unfolding accepted commit new_window
accepted_runs = refl
