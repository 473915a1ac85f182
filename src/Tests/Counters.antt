-- ===== src/Tests/Counters.antt =====
-- The counter cache (crates/tunnel/src/server/replay.rs) at a concrete input, with a cache that never
-- evicts and keys that are a sum of bytes.
use kanotls.Prelude.{
  ℕ, ◌+◌, ◌≡◌, ◌≢◌, refl, inl, List, [], ◌∷◌, Option, none, some, true, false, if◌then◌else◌, ◌==◌,
  arith,
}
use kanotls.Replay.{SlidingWindow, new_window, commit}
use kanotls.Replay.Counter.{
  LruCache, key_of, check_counter_replay, commit_counter_replay, commit_at,
}
use kanotls.Replay.Counter.Refused.{
  Operation, checks, commits, operate, operate_all, IsKept, request_of, committed, committed_once,
}

abbrev pub write : (ℕ → Option SlidingWindow) → ℕ → SlidingWindow → ℕ → Option SlidingWindow
write c k w j = if k == j then some w else c j

pub write_same : (c : ℕ → Option SlidingWindow) (k : ℕ) (w : SlidingWindow) → write c k w k ≡ some w
write_same c k w = ground arith

pub write_other :
    (c : ℕ → Option SlidingWindow) (j k : ℕ) (w : SlidingWindow) → j ≢ k → write c j w k ≡ c k
write_other c j k w h = ground arith

abbrev pub unbounded : LruCache
unbounded = record {
  State = ℕ → Option SlidingWindow;
  empty = λ k. none;
  peek = λ c k. c k;
  touch = λ c k. c;
  put = write;
  modify = write;
  peek-empty = λ k. refl;
  peek-touch = λ c j k. refl;
  peek-put = write_same;
  peek_put_other = λ c j k w h. inl (write_other c j k w h);
  peek-modify = λ c k v w e. write_same c k w;
  peek_modify_other = write_other;
}

abbrev pub sum_of : List ℕ → ℕ
sum_of [] = 0
sum_of (b ∷ bs) = b + sum_of bs

-- Session 1 commits its number 5 between a check of it and a commit of number 6.
abbrev earlier : List Operation
earlier = checks (9 ∷ []) 16777221 ∷ []

abbrev later : List Operation
later = commits (record { cache_key = 10; sequence = 6 }) ∷ []

accepted_here : (committed unbounded sum_of earlier (9 ∷ []) 16777221).0 ≡ true
unfolding committed operate_all operate commit_counter_replay commit_at check_counter_replay key_of
accepted_here = refl

later-IsKept :
    IsKept unbounded sum_of
      (committed unbounded sum_of earlier (9 ∷ []) 16777221).1
      later
      (key_of unbounded sum_of (9 ∷ []) 16777221)
unfolding IsKept committed operate_all operate commit_counter_replay commit_at check_counter_replay
    key_of commit new_window
later-IsKept = (λ e. absurd (ground (arith, e)), λ e. absurd (ground (arith, e)))

committed_once_example :
    ((commit_counter_replay unbounded sum_of false
        (operate_all unbounded sum_of
          (committed unbounded sum_of earlier (9 ∷ []) 16777221).1
          later)
        (request_of unbounded sum_of (9 ∷ []) 16777221)).0
      ≡ false)
    × ((check_counter_replay unbounded sum_of false
          (operate_all unbounded sum_of
            (committed unbounded sum_of earlier (9 ∷ []) 16777221).1
            later)
          (9 ∷ [])
          16777221).0
        ≡ none)
committed_once_example =
    committed_once unbounded sum_of earlier later (9 ∷ []) 16777221 accepted_here later-IsKept
