-- ===== src/Replay/Counter/Refused.antt =====
-- Over the cache: what one session's window refuses, the cache refuses, for as long as the window is not
-- evicted.
use kanotls.Prelude.{
  ℕ, ◌≡◌, ◌≢◌, refl, sym, ap, ◌∙◌, subst, inl, inr, List, [], ◌∷◌, Option, none, some, Bool, true,
  false, if◌then◌else◌, ℕ_discrete, arith,
}
use kanotls.Replay.{SlidingWindow, new_window, commit}
use kanotls.Replay.Window.{contains, is_fresh, Tracks, new_window-Tracks, commit-Tracks}
use kanotls.Replay.Once.{check-commit}
use kanotls.Replay.Counter.{
  LruCache, ReplayCheck, key_of, sequence_of, check_counter_replay, commit_counter_replay,
  commit_at, checked,
}

-- What the handshakes of a server do to the cache: a check of a session's key, a commit.
pub data Operation : Type 0 where
  checks : List ℕ → ℕ → Operation
  commits : ReplayCheck → Operation

-- The window of a lookup stands for a history, or for one with the number in it.
abbrev IsGood : Option SlidingWindow → Type 0
IsGood none = Unit {0}
IsGood (some w) = (seen : List ℕ) × Tracks w seen

abbrev HasSeen : ℕ → Option SlidingWindow → Type 0
HasSeen s none = ⊥
HasSeen s (some w) = (seen : List ℕ) × Tracks w seen × (contains s seen ≡ true)

commit-IsGood : (w : SlidingWindow) (s : ℕ) → IsGood (some w) → IsGood (some (commit w s).1)
commit-IsGood w s (seen, t) = (_, (commit-Tracks w seen s t).1)

commit-HasSeen :
    (w : SlidingWindow) (s t : ℕ) → HasSeen s (some w) → HasSeen s (some (commit w t).1)
commit-HasSeen w s t (seen, k, h) =
    ((if is_fresh seen t then t ∷ seen else seen), (commit-Tracks w seen t k).1, ground arith)

-- An accepted number is in the history afterwards.
commit_accepted :
    (w : SlidingWindow) (s : ℕ)
    → IsGood (some w)
    → (commit w s).0 ≡ true
    → HasSeen s (some (commit w s).1)
commit_accepted w s (seen, t) h =
    let (answer, next, _) = commit-Tracks w seen s t in
    ((if is_fresh seen s then s ∷ seen else seen), next, ground (arith, answer))

commit_refused : (w : SlidingWindow) (s : ℕ) → HasSeen s (some w) → (commit w s).0 ≡ false
commit_refused w s (seen, t, h) = ground (arith, (commit-Tracks w seen s t).0)

module _ (lru : LruCache) (derive : List ℕ → ℕ) where
  unfoldable pub operate : lru.State → Operation → lru.State
  operate c (checks psk raw) = (check_counter_replay lru derive false c psk raw).1
  operate c (commits request) = (commit_counter_replay lru derive false c request).1

  unfoldable pub operate_all : lru.State → List Operation → lru.State
  operate_all c [] = c
  operate_all c (o ∷ os) = operate_all (operate c o) os

  -- The key's window is there all along.
  unfoldable pub IsKept : lru.State → List Operation → ℕ → Type 0
  IsKept c [] k = lru.peek c k ≢ none
  IsKept c (o ∷ os) k = (lru.peek c k ≢ none) × IsKept (operate c o) os k

  commit_at-IsGood :
      (c : lru.State) (request : ReplayCheck) (found : Option SlidingWindow) (k : ℕ)
      → lru.peek c request.cache_key ≡ found
      → IsGood found
      → IsGood (lru.peek c k)
      → IsGood (lru.peek (commit_at lru derive c request found).1 k)
  unfolding commit_at
  commit_at-IsGood c request none k e f h = elim (ℕ_discrete request.cache_key k) [
    | yes same ↦
        subst (λ j. IsGood (lru.peek (lru.put c request.cache_key (new_window request.sequence)) j))
          same
          (rw (lru.peek-put c request.cache_key (new_window request.sequence))
            ((request.sequence ∷ []), new_window-Tracks request.sequence))
    | no other ↦
        elim (lru.peek_put_other c request.cache_key k (new_window request.sequence) other) [
          | inl e' ↦ rw e' h
          | inr e' ↦ rw e' tt
        ]
  ]
  commit_at-IsGood c request (some w) k e f h = elim (ℕ_discrete request.cache_key k) [
    | yes same ↦
        subst
          (λ j. IsGood (lru.peek (lru.modify c request.cache_key (commit w request.sequence).1) j))
          same
          (rw (lru.peek-modify c request.cache_key w (commit w request.sequence).1 e)
            (commit-IsGood w request.sequence f))
    | no other ↦
        rw (lru.peek_modify_other c request.cache_key k (commit w request.sequence).1 other) h
  ]

  operate-IsGood :
      (c : lru.State) (o : Operation)
      → ((k : ℕ) → IsGood (lru.peek c k))
      → (k : ℕ) → IsGood (lru.peek (operate c o) k)
  unfolding operate check_counter_replay commit_counter_replay
  operate-IsGood c (checks psk raw) h k = rw (lru.peek-touch c (key_of lru derive psk raw) k) (h k)
  operate-IsGood c (commits request) h k =
      commit_at-IsGood c request (lru.peek c request.cache_key) k refl (h request.cache_key) (h k)

  operate_all-IsGood :
      (c : lru.State) (os : List Operation)
      → ((k : ℕ) → IsGood (lru.peek c k))
      → (k : ℕ) → IsGood (lru.peek (operate_all c os) k)
  unfolding operate_all
  operate_all-IsGood c [] h k = h k
  operate_all-IsGood c (o ∷ os) h k = operate_all-IsGood (operate c o) os (operate-IsGood c o h) k

  commit_at-HasSeen :
      (c : lru.State) (request : ReplayCheck) (found : Option SlidingWindow) (k s : ℕ)
      → lru.peek c request.cache_key ≡ found
      → HasSeen s (lru.peek c k)
      → lru.peek (commit_at lru derive c request found).1 k ≢ none
      → HasSeen s (lru.peek (commit_at lru derive c request found).1 k)
  unfolding commit_at
  commit_at-HasSeen c request none k s e h kept = elim (ℕ_discrete request.cache_key k) [
    | yes same ↦ absurd (subst (HasSeen s) (ap (lru.peek c) (sym same) ∙ e) h)
    | no other ↦
        elim (lru.peek_put_other c request.cache_key k (new_window request.sequence) other) [
          | inl e' ↦ rw e' h
          | inr e' ↦ absurd (kept e')
        ]
  ]
  commit_at-HasSeen c request (some w) k s e h kept = elim (ℕ_discrete request.cache_key k) [
    | yes same ↦
        subst
          (λ j.
            HasSeen s (lru.peek (lru.modify c request.cache_key (commit w request.sequence).1) j))
          same
          (rw (lru.peek-modify c request.cache_key w (commit w request.sequence).1 e) (
            commit-HasSeen w s request.sequence
              (subst (HasSeen s) (ap (lru.peek c) (sym same) ∙ e) h)))
    | no other ↦
        rw (lru.peek_modify_other c request.cache_key k (commit w request.sequence).1 other) h
  ]

  operate-HasSeen :
      (c : lru.State) (o : Operation) (k s : ℕ)
      → HasSeen s (lru.peek c k)
      → lru.peek (operate c o) k ≢ none
      → HasSeen s (lru.peek (operate c o) k)
  unfolding operate check_counter_replay commit_counter_replay
  operate-HasSeen c (checks psk raw) k s h kept =
      rw (lru.peek-touch c (key_of lru derive psk raw) k) h
  operate-HasSeen c (commits request) k s h kept =
      commit_at-HasSeen c request (lru.peek c request.cache_key) k s refl h kept

  kept_now : (c : lru.State) (os : List Operation) (k : ℕ) → IsKept c os k → lru.peek c k ≢ none
  unfolding IsKept
  kept_now c [] k h = h
  kept_now c (o ∷ os) k h = h.0

  operate_all-HasSeen :
      (c : lru.State) (os : List Operation) (k s : ℕ)
      → HasSeen s (lru.peek c k)
      → IsKept c os k
      → HasSeen s (lru.peek (operate_all c os) k)
  unfolding operate_all IsKept
  operate_all-HasSeen c [] k s h kept = h
  operate_all-HasSeen c (o ∷ os) k s h kept =
      operate_all-HasSeen (operate c o) os k s
        (operate-HasSeen c o k s h (kept_now (operate c o) os k kept.1)) kept.1

  -- An accepted commit leaves its number in the session's history.
  commit_at_accepted :
      (c : lru.State) (request : ReplayCheck) (found : Option SlidingWindow)
      → lru.peek c request.cache_key ≡ found
      → IsGood found
      → (commit_at lru derive c request found).0 ≡ true
      → HasSeen request.sequence
          (lru.peek (commit_at lru derive c request found).1 request.cache_key)
  unfolding commit_at
  commit_at_accepted c request none e g h =
      rw (lru.peek-put c request.cache_key (new_window request.sequence))
        ((request.sequence ∷ []), new_window-Tracks request.sequence, ground arith)
  commit_at_accepted c request (some w) e g h =
      rw (lru.peek-modify c request.cache_key w (commit w request.sequence).1 e)
        (commit_accepted w request.sequence g h)

  commit_at_refused :
      (c : lru.State) (request : ReplayCheck) (found : Option SlidingWindow)
      → HasSeen request.sequence found
      → (commit_at lru derive c request found).0 ≡ false
  unfolding commit_at
  commit_at_refused c request none h = absurd h
  commit_at_refused c request (some w) h = commit_refused w request.sequence h

  checked_refused :
      (request : ReplayCheck) (found : Option SlidingWindow)
      → HasSeen request.sequence found
      → checked lru derive request found ≡ none
  checked_refused request none h = absurd h
  checked_refused request (some w) h =
      let no = commit_refused w request.sequence h in
      let same = check-commit w request.sequence in ground (arith, no, same)

  abbrev pub request_of : List ℕ → ℕ → ReplayCheck
  request_of psk raw = record { cache_key = key_of lru derive psk raw; sequence = sequence_of raw }

  unfoldable pub committed : List Operation → List ℕ → ℕ → Bool × lru.State
  committed before psk raw =
      commit_counter_replay lru derive false (operate_all lru.empty before) (request_of psk raw)

  committed-HasSeen :
      (before after : List Operation) (psk : List ℕ) (raw : ℕ)
      → (committed before psk raw).0 ≡ true
      → IsKept (committed before psk raw).1 after (key_of lru derive psk raw)
      → HasSeen
          (sequence_of raw)
          (lru.peek (operate_all (committed before psk raw).1 after) (key_of lru derive psk raw))
  unfolding committed commit_counter_replay
  committed-HasSeen before after psk raw h kept =
      let c = operate_all lru.empty before in
      let good = operate_all-IsGood lru.empty before (λ k. rw (lru.peek-empty k) tt) in
      let request = request_of psk raw in
      operate_all-HasSeen (committed before psk raw).1 after (key_of lru derive psk raw)
        (sequence_of raw)
        (commit_at_accepted c request (lru.peek c request.cache_key) refl (good request.cache_key)
          h)
        kept

  -- Whatever happened to the cache since it was empty: once a commit of a session's number is accepted,
  -- every later commit of it and every later check of the same counter is refused, as long as the
  -- session's window has not been evicted in between.
  pub committed_once :
      (before after : List Operation) (psk : List ℕ) (raw : ℕ)
      → (committed before psk raw).0 ≡ true
      → IsKept (committed before psk raw).1 after (key_of lru derive psk raw)
      → ((commit_counter_replay lru derive false
            (operate_all (committed before psk raw).1 after)
            (request_of psk raw)).0
          ≡ false)
        × ((check_counter_replay lru derive false
              (operate_all (committed before psk raw).1 after)
              psk
              raw).0
            ≡ none)
  unfolding commit_counter_replay check_counter_replay
  committed_once before after psk raw h kept =
      let c = operate_all (committed before psk raw).1 after in
      let request = request_of psk raw in
      let seen = committed-HasSeen before after psk raw h kept in
      (
        commit_at_refused c request (lru.peek c request.cache_key) seen,
        checked_refused request (lru.peek c request.cache_key) seen,
      )
