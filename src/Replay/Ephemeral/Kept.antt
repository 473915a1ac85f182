-- ===== src/Replay/Ephemeral/Kept.antt =====
-- A key that was accepted is refused while it is retained and the cache has room.
use kanotls.Prelude.{
  ℕ, zero, suc, ◌+◌, ◌-◌, ◌≤◌, ◌<◌, ◌≡◌, inl, inr, refl, sym, ap, ◌∙◌, subst, List, [], ◌∷◌, ◌++◌,
  true, false, Bool-cases, if◌then◌else◌, leb, ltb, ◌==◌, length, drop, All, length-append,
  append_assoc, arith, List-cases, ltb→le, ==_iff,
}
use kanotls.Replay.Ephemeral.{
  KeyCache, HasKey, max_replay_cache_entries, replay_retention, expire, is_replay, replays,
}

-- The entry of a key, with at most `n` others behind it.
record IsHeld (k : List ℕ) (t n : ℕ) (es : List (List ℕ × ℕ)) : Type 0 where
  older : List (List ℕ × ℕ)
  newer : List (List ℕ × ℕ)
  split : es ≡ older ++ (k, t) ∷ newer
  few : length newer ≤ n

HasKey-middle :
    (k : List ℕ) (t : ℕ) (older newer : List (List ℕ × ℕ)) → HasKey k (older ++ (k, t) ∷ newer)
HasKey-middle k t [] newer = inl refl
HasKey-middle k t ((j, u) ∷ older) newer = inr (HasKey-middle k t older newer)

module _ (cache : KeyCache) (k : List ℕ) (t : ℕ) where
  expire-IsHeld :
      (fuel now n : ℕ) (c : cache.State) (older newer : List (List ℕ × ℕ))
      → now ≤ t + replay_retention
      → length newer ≤ n
      → cache.entries c ≡ older ++ (k, t) ∷ newer
      → IsHeld k t n (cache.entries (expire cache fuel c now))
  unfolding expire
  expire-IsHeld zero now n c older newer lately few split = record {
    older = older;
    newer = newer;
    split = split;
    few = few;
  }
  expire-IsHeld (suc fuel) now n c [] newer lately few split =
      let young : leb (now - t) replay_retention ≡ true = ground arith in
      rw (expire, cache.peek_lru-cons c (k, t) newer split, young)
        (record { older = []; newer = newer; split = split; few = few })
  expire-IsHeld (suc fuel) now n c ((j, u) ∷ older) newer lately few split =
      elim (Bool-cases (leb (now - u) replay_retention)) [
        | inl young ↦
            rw (expire, cache.peek_lru-cons c (j, u) _ split, young)
              (record { older = (j, u) ∷ older; newer = newer; split = split; few = few })
        | inr old ↦
            rw (expire, cache.peek_lru-cons c (j, u) _ split, old)
              (expire-IsHeld fuel now n (cache.pop_lru c) older newer lately few
                (cache.entries-pop_lru c ∙ ap (drop 1) split))
      ]

  put-IsHeld :
      (now n : ℕ) (c : cache.State) (j : List ℕ)
      → n + 1 < max_replay_cache_entries
      → cache.contains c j ≡ false
      → IsHeld k t n (cache.entries c)
      → IsHeld k t (n + 1) (cache.entries (cache.put c j now))
  put-IsHeld now n c j room absent h =
      subst (IsHeld k t (n + 1)) (sym (cache.entries-put c j now absent)) (placed h.older h.split)
    where
      added :
          (older : List (List ℕ × ℕ))
          → IsHeld k t (n + 1) ((older ++ (k, t) ∷ h.newer) ++ (j, now) ∷ [])
      added older = record {
        older = older;
        newer = h.newer ++ (j, now) ∷ [];
        split = append_assoc older ((k, t) ∷ h.newer) ((j, now) ∷ []);
        few = omega (arith, h.few, length-append {0} h.newer ((j, now) ∷ []));
      }

      placed :
          (older : List (List ℕ × ℕ))
          → cache.entries c ≡ older ++ (k, t) ∷ h.newer
          → IsHeld k t (n + 1) (
              (if ltb (length (cache.entries c)) max_replay_cache_entries
                then cache.entries c
                else drop 1 (cache.entries c))
              ++ (j, now) ∷ [])
      placed older split =
          elim (Bool-cases (ltb (length (cache.entries c)) max_replay_cache_entries)) [
            | inl fits ↦ rw (fits, split) (added older)
            | inr full ↦ elim (List-cases older) [
              | inl oldest ↦ absurd (
                  omega (
                    arith,
                    h.few,
                    ltb→le _ _ full,
                    ap length (split ∙ ap (λ o. o ++ (k, t) ∷ h.newer) oldest),
                  ))
              | inr (e, rest, more) ↦ rw (full, split, more) (added rest)
            ]
          ]

  weaken : (n m : ℕ) (es : List (List ℕ × ℕ)) → n ≤ m → IsHeld k t n es → IsHeld k t m es
  weaken n m es h held = record {
    older = held.older;
    newer = held.newer;
    split = held.split;
    few = omega (arith, held.few);
  }

  -- Whatever key another call has, it adds one entry behind the key at most.
  is_replay-IsHeld :
      (now n : ℕ) (c : cache.State) (j : List ℕ)
      → now ≤ t + replay_retention
      → n + 1 < max_replay_cache_entries
      → IsHeld k t n (cache.entries c)
      → IsHeld k t (n + 1) (cache.entries (is_replay cache false c j now).1)
  unfolding is_replay
  is_replay-IsHeld now n c j lately room h =
      let kept = expire cache (length (cache.entries c)) c now in
      let held =
        expire-IsHeld (length (cache.entries c)) now n c h.older h.newer lately h.few h.split in
      elim (Bool-cases (length j == 32)) [
        | inl sized ↦ elim (Bool-cases (cache.contains kept j)) [
          | inl there ↦ rw (is_replay, sized, there) (weaken n (n + 1) _ (omega arith) held)
          | inr absent ↦ rw (is_replay, sized, absent) (put-IsHeld now n kept j room absent held)
        ]
        | inr other ↦ rw (is_replay, other) (weaken n (n + 1) _ (omega arith) h)
      ]

  abbrev pub IsLately : List ℕ × ℕ → Type 0
  IsLately (j, now) = now ≤ t + replay_retention

  replays-IsHeld :
      (calls : List (List ℕ × ℕ)) (n : ℕ) (c : cache.State)
      → All IsLately calls
      → n + length calls < max_replay_cache_entries
      → IsHeld k t n (cache.entries c)
      → IsHeld k t (n + length calls) (cache.entries (replays cache c calls))
  unfolding replays
  replays-IsHeld [] n c lately room h = weaken n (n + 0) _ (omega arith) h
  replays-IsHeld ((j, now) ∷ calls) n c lately room h =
      let one = is_replay-IsHeld now n c j lately.0 (omega arith) h in
      weaken (n + 1 + length calls) (n + suc (length calls)) _ (omega arith)
        (replays-IsHeld calls (n + 1) (is_replay cache false c j now).1 lately.1 (omega arith) one)

  -- An accepted key stands last.
  accepted-IsHeld :
      (c : cache.State)
      → (is_replay cache false c k t).0 ≡ false
      → (length k ≡ 32) × IsHeld k t 0 (cache.entries (is_replay cache false c k t).1)
  unfolding is_replay
  accepted-IsHeld c accepted =
      let kept = expire cache (length (cache.entries c)) c t in
      elim (Bool-cases (length k == 32)) [
        | inl sized ↦ elim (Bool-cases (cache.contains kept k)) [
          | inl there ↦ cc (rw (is_replay, sized, there) at accepted)
          | inr absent ↦ (
            (==_iff (length k) 32).0 sized,
            rw (is_replay, sized, absent)
                (record {
                  older =
                      if ltb (length (cache.entries kept)) max_replay_cache_entries
                      then cache.entries kept
                      else drop 1 (cache.entries kept);
                  newer = [];
                  split = cache.entries-put kept k t absent;
                  few = omega arith;
                }),
          )
        ]
        | inr other ↦ cc (rw (is_replay, other) at accepted)
      ]

  held-refused :
      (now n : ℕ) (c : cache.State)
      → now ≤ t + replay_retention
      → IsHeld k t n (cache.entries c)
      → (is_replay cache false c k now).0 ≡ true
  unfolding is_replay
  held-refused now n c lately h =
      let kept = expire cache (length (cache.entries c)) c now in
      let held =
        expire-IsHeld (length (cache.entries c)) now n c h.older h.newer lately h.few h.split in
      let there : cache.contains kept k ≡ true =
        (cache.contains_iff kept k).1
          (subst (HasKey k) (sym held.split) (HasKey-middle k t held.older held.newer)) in
      elim (Bool-cases (length k == 32)) [
        | inl sized ↦ rw (is_replay, sized, there) refl
        | inr other ↦ rw (is_replay, other) refl
      ]

-- A key that `is_replay` lets pass at a time is refused at every time up to ten minutes later, whatever
-- the other handshakes bring in between, as long as they are fewer than the cache has room for.
pub seen_is_refused :
    (cache : KeyCache) (k : List ℕ) (t now : ℕ) (calls : List (List ℕ × ℕ)) (c : cache.State)
    → (is_replay cache false c k t).0 ≡ false
    → All (IsLately cache k t) calls
    → length calls < max_replay_cache_entries
    → now ≤ t + replay_retention
    → (is_replay cache false (replays cache (is_replay cache false c k t).1 calls) k now).0 ≡ true
seen_is_refused cache k t now calls c accepted lately room soon =
    let (sized, held) = accepted-IsHeld cache k t c accepted in
    held-refused cache k t now (0 + length calls)
      (replays cache (is_replay cache false c k t).1 calls) soon
      (replays-IsHeld cache k t calls 0 (is_replay cache false c k t).1 lately (omega arith) held)
