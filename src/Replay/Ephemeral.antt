-- ===== src/Replay/Ephemeral.antt =====
-- `is_replay` of crates/tunnel/src/server/replay.rs: the ephemeral keys that were seen lately, in the
-- `lru` crate's cache, which is an interface here. The time is in nanoseconds.
pub mod Kept
use kanotls.Prelude.{
  ℕ, zero, suc, ◌+◌, ◌-◌, ◌*◌, ◌<◌, ◌≡◌, ◌⊎◌, ◌↔◌, List, [], ◌∷◌, ◌++◌, Option, none, some, Bool,
  true, false, if◌then◌else◌, leb, ltb, ◌==◌, length, drop,
}

abbrev pub max_replay_cache_entries : ℕ
max_replay_cache_entries = 65536

abbrev pub replay_retention : ℕ
replay_retention = 600 * 1000000000

abbrev pub HasKey : List ℕ → List (List ℕ × ℕ) → Type 0
HasKey k [] = ⊥
HasKey k ((j, t) ∷ es) = (j ≡ k) ⊎ HasKey k es

-- What the code relies on of `LruCache`, seen through its entries, the one to be evicted first: a
-- `put` of a key that is not there goes behind the others, and a full cache loses its first entry.
pub record KeyCache : Type 1 where
  pub State : Type 0
  pub entries : State → List (List ℕ × ℕ)
  pub peek_lru : State → Option (List ℕ × ℕ)
  pub pop_lru : State → State
  pub contains : State → List ℕ → Bool
  pub put : State → List ℕ → ℕ → State
  pub peek_lru-nil : (c : State) → entries c ≡ [] → peek_lru c ≡ none
  pub peek_lru-cons :
      (c : State) (e : List ℕ × ℕ) (es : List (List ℕ × ℕ))
      → entries c ≡ e ∷ es
      → peek_lru c ≡ some e
  pub entries-pop_lru : (c : State) → entries (pop_lru c) ≡ drop 1 (entries c)
  pub contains_iff : (c : State) (k : List ℕ) → (contains c k ≡ true) ↔ HasKey k (entries c)
  pub entries-put :
      (c : State) (k : List ℕ) (t : ℕ)
      → contains c k ≡ false
      → entries (put c k t)
        ≡ (if ltb (length (entries c)) max_replay_cache_entries
            then entries c
            else drop 1 (entries c))
          ++ (k, t) ∷ []

module _ (cache : KeyCache) where
  -- The loop that drops the entries of before the retention, on fuel. `duration_since` stops at 0.
  unfoldable pub expire : ℕ → cache.State → ℕ → cache.State
  expire zero c now = c
  expire (suc fuel) c now = elim (cache.peek_lru c) [
    | none ↦ c
    | some (k, seen_at) ↦
        let rest = expire fuel (cache.pop_lru c) now in
        if leb (now - seen_at) replay_retention then c else rest
  ]

  -- There is a round for each entry, so their number is fuel enough. `poisoned` says that the lock is.
  unfoldable pub is_replay : Bool → cache.State → List ℕ → ℕ → Bool × cache.State
  unfolding expire
  is_replay poisoned c client_ephemeral now =
      let kept = expire (length (cache.entries c)) c now in
      if length client_ephemeral == 32
      then (if poisoned
          then (true, c)
          else if cache.contains kept client_ephemeral
          then (true, kept)
          else (false, cache.put kept client_ephemeral now))
      else (true, c)

  -- The calls of other handshakes.
  unfoldable pub replays : cache.State → List (List ℕ × ℕ) → cache.State
  replays c [] = c
  replays c ((k, now) ∷ calls) = replays (is_replay false c k now).1 calls
