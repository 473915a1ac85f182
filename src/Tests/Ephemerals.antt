-- ===== src/Tests/Ephemerals.antt =====
-- Runs of `is_replay` (crates/tunnel/src/server/replay.rs), and the theorem about it at a concrete
-- input.
use kanotls.Prelude.{
  ℕ, ◌≡◌, ◌↔◌, inl, inr, refl, List, [], ◌∷◌, ◌++◌, Option, none, some, Bool, true, false,
  Bool-cases, if◌then◌else◌, ltb, ◌||◌, length, drop, replicate, arith,
}
use kanotls.Prelude.Bytes.{bytes_eq, bytes_eq_refl, bytes_eq_sound}
use kanotls.Replay.Ephemeral.{KeyCache, HasKey, max_replay_cache_entries, is_replay, replays}
use kanotls.Replay.Ephemeral.Kept.{seen_is_refused}

-- A cache of keys as its list of entries.
abbrev pub Entries : Type 0
Entries = List (List ℕ × ℕ)

abbrev pub first_entry : Entries → Option (List ℕ × ℕ)
first_entry [] = none
first_entry (e ∷ es) = some e

unfoldable pub has_key : Entries → List ℕ → Bool
has_key [] k = false
has_key ((j, t) ∷ es) k = bytes_eq j k || has_key es k

pub has_key_iff : (es : Entries) (k : List ℕ) → (has_key es k ≡ true) ↔ HasKey k es
unfolding has_key
has_key_iff [] k = (λ e. cc, λ h. absurd h)
has_key_iff ((j, t) ∷ es) k = elim (Bool-cases (bytes_eq j k)) [
  | inl same ↦ rw same (λ e. inl (bytes_eq_sound j k same), λ h. refl)
  | inr other ↦ rw other (
    λ e. inr ((has_key_iff es k).0 e),
    λ h. elim h [
      | inl e ↦ cc (rw (e, bytes_eq_refl k) at other)
      | inr later ↦ (has_key_iff es k).1 later
    ],
  )
]

pub first_entry-nil : (es : Entries) → es ≡ [] → first_entry es ≡ none
first_entry-nil es e = rw e refl

pub first_entry-cons :
    (c : Entries) (e : List ℕ × ℕ) (es : Entries) → c ≡ e ∷ es → first_entry c ≡ some e
first_entry-cons c e es h = rw h refl

abbrev pub list_cache : KeyCache
list_cache = record {
  State = Entries;
  entries = λ c. c;
  peek_lru = first_entry;
  pop_lru = λ c. drop 1 c;
  contains = has_key;
  put = λ c k t. (if ltb (length c) max_replay_cache_entries then c else drop 1 c) ++ (k, t) ∷ [];
  peek_lru-nil = first_entry-nil;
  peek_lru-cons = first_entry-cons;
  entries-pop_lru = λ c. refl;
  contains_iff = has_key_iff;
  entries-put = λ c k t absent. refl;
}

abbrev a_key : List ℕ
a_key = replicate 32 7

abbrev another_key : List ℕ
another_key = replicate 32 8

-- Ten minutes are over for a third key when the others come.
old_key_passes :
    is_replay list_cache false ((a_key, 0) ∷ []) a_key 600000000001
    ≡ (false, (a_key, 600000000001) ∷ [])
unfolding is_replay has_key bytes_eq
old_key_passes = refl

key_passes : (is_replay list_cache false [] a_key 5).0 ≡ false
unfolding is_replay has_key
key_passes = refl

seen_is_refused_example :
    (is_replay list_cache false
      (replays list_cache
        (is_replay list_cache false [] a_key 5).1
        ((another_key, 6) ∷ (a_key, 7) ∷ []))
      a_key
      600000000005).0
    ≡ true
seen_is_refused_example =
    seen_is_refused list_cache a_key 5 600000000005 ((another_key, 6) ∷ (a_key, 7) ∷ []) []
      key_passes (omega arith) (omega arith) (omega arith)
