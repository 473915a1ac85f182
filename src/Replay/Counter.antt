-- ===== src/Replay/Counter.antt =====
-- The counter cache of crates/tunnel/src/server/replay.rs: one window for each session, in the `lru`
-- crate's cache, which is an interface here.
pub mod Refused
use kanotls.Prelude.{
  ℕ, ◌+◌, ◌*◌, ◌/◌, ◌%◌, ◌^◌, ◌≡◌, ◌≢◌, ◌⊎◌, List, [], ◌∷◌, ◌++◌, Option, none, some, Bool, true,
  false, if◌then◌else◌,
}
use kanotls.Replay.{SlidingWindow, new_window, check, commit}

-- What the code relies on of `LruCache`: a lookup moves its entry to the front and changes no value; a
-- `put` stores its entry and may evict another one; a write through `get_mut` changes its entry only.
pub record LruCache : Type 1 where
  pub State : Type 0
  pub empty : State
  pub peek : State → ℕ → Option SlidingWindow
  pub touch : State → ℕ → State
  pub put : State → ℕ → SlidingWindow → State
  pub modify : State → ℕ → SlidingWindow → State
  pub peek-empty : (k : ℕ) → peek empty k ≡ none
  pub peek-touch : (c : State) (j k : ℕ) → peek (touch c j) k ≡ peek c k
  pub peek-put : (c : State) (k : ℕ) (w : SlidingWindow) → peek (put c k w) k ≡ some w
  pub peek_put_other :
      (c : State) (j k : ℕ) (w : SlidingWindow)
      → j ≢ k
      → (peek (put c j w) k ≡ peek c k) ⊎ (peek (put c j w) k ≡ none)
  pub peek-modify :
      (c : State) (k : ℕ) (v w : SlidingWindow) → peek c k ≡ some v → peek (modify c k w) k ≡ some w
  pub peek_modify_other :
      (c : State) (j k : ℕ) (w : SlidingWindow) → j ≢ k → peek (modify c j w) k ≡ peek c k

-- A key is its sixteen bytes, as a number.
pub record ReplayCheck : Type 0 where
  pub cache_key : ℕ
  pub sequence : ℕ

-- The counter's upper 40 bits name the session, its lower 24 bits are the number.
abbrev pub session_id_of : ℕ → ℕ
session_id_of raw_counter = raw_counter / 2 ^ 24

abbrev pub sequence_of : ℕ → ℕ
sequence_of raw_counter = raw_counter % 2 ^ 24

abbrev pub u64_to_be_bytes : ℕ → List ℕ
u64_to_be_bytes n =
    n / 2 ^ 56 % 256
    ∷ n / 2 ^ 48 % 256
    ∷ n / 2 ^ 40 % 256
    ∷ n / 2 ^ 32 % 256
    ∷ n / 2 ^ 24 % 256
    ∷ n / 2 ^ 16 % 256
    ∷ n / 2 ^ 8 % 256
    ∷ n % 256
    ∷ []

-- `derive` is the hash that makes a key; the counter comes unmasked, and `poisoned` says that the lock
-- is.
module _ (lru : LruCache) (derive : List ℕ → ℕ) where
  unfoldable pub key_of : List ℕ → ℕ → ℕ
  key_of derived_psk raw_counter =
      derive (derived_psk ++ u64_to_be_bytes (session_id_of raw_counter))

  abbrev pub checked : ReplayCheck → Option SlidingWindow → Option ReplayCheck
  checked request none = some request
  checked request (some w) = if check w request.sequence then some request else none

  unfoldable pub check_counter_replay :
      Bool → lru.State → List ℕ → ℕ → Option ReplayCheck × lru.State
  unfolding key_of
  check_counter_replay poisoned c derived_psk raw_counter =
      let key = key_of derived_psk raw_counter in
      let request : ReplayCheck = record { cache_key = key; sequence = sequence_of raw_counter } in
      if poisoned then (none, c) else (checked request (lru.peek c key), lru.touch c key)

  unfoldable pub commit_at : lru.State → ReplayCheck → Option SlidingWindow → Bool × lru.State
  commit_at c request none = (true, lru.put c request.cache_key (new_window request.sequence))
  commit_at c request (some w) =
      let next = commit w request.sequence in (next.0, lru.modify c request.cache_key next.1)

  unfoldable pub commit_counter_replay : Bool → lru.State → ReplayCheck → Bool × lru.State
  unfolding commit_at
  commit_counter_replay poisoned c request =
      if poisoned then (false, c) else commit_at c request (lru.peek c request.cache_key)
