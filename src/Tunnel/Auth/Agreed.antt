-- ===== src/Tunnel/Auth/Agreed.antt =====
-- What a client writes into its ClientHello authenticates it at a server that has its key, with the
-- counter that the client used.
use kanotls.Prelude.{
  ℕ, suc, ◌+◌, ◌-◌, ◌^◌, ◌≤◌, ◌<◌, ◌≡◌, refl, sym, ap, ◌∙◌, List, [], ◌∷◌, ◌++◌, Option, none, some,
  Bool, false, ltb, arith, length, take, replicate, All, length-append, take-append-drop,
  append-nil, Bool-cases, inl, inr,
}
use kanotls.Prelude.Bytes.{bytes_eq}
use kanotls.Replay.Counter.{LruCache, ReplayCheck, check_counter_replay}
use kanotls.Replay.Ephemeral.{KeyCache, is_replay}
use kanotls.Tunnel.Auth.{
  Blake2, slice, client_hello_random_and_session_id_ranges, auth_random, signed, sign, Fields,
  fields_of, mac_matches, check_replay, probe, candidates, authenticate_client_hello, cache_key_of,
}
use kanotls.Tunnel.Auth.Layout.{hello, slice-random, slice-session, ranges_kept, lays, ranges_fit}
use kanotls.Tunnel.Auth.Written.{
  unmasked, mac_agrees, sign_lem, fields, random_len, session_len, counter_agrees, fields_read,
  session_id_of,
}

signed_same : {a b : List ℕ} → signed a ≡ signed b → a ≡ b
signed_same e = cc

-- Candidates whose MAC does not match are passed over.
module _ (blake : Blake2) (reads : List ℕ → List ℕ → Option ℕ) (lru : LruCache) (cache : KeyCache)
    (counters_poisoned keys_poisoned : Bool) (now : ℕ) where
  pub probe_skip :
      (f : Fields) (q : List ℕ) (caches : lru.State × cache.State)
      → mac_matches blake f q ≡ false
      → probe blake reads lru cache counters_poisoned keys_poisoned now f q caches ≡ (none, caches)
  unfolding probe
  probe_skip f q caches e = rw (probe, e) refl

  candidates_step :
      (f : Fields) (q : List ℕ) (rest : List (List ℕ)) (i : ℕ) (caches : lru.State × cache.State)
      → mac_matches blake f q ≡ false
      → candidates blake reads lru cache counters_poisoned keys_poisoned now f i (q ∷ rest) caches
        ≡ candidates blake reads lru cache counters_poisoned keys_poisoned now f (i + 1) rest caches
  unfolding candidates
  candidates_step f q rest i caches e =
      let skipped = probe_skip f q caches e in
      rw (candidates, ap (λ t. t.0) skipped)
        (ap (candidates blake reads lru cache counters_poisoned keys_poisoned now f (i + 1) rest)
          (ap (λ t. t.1) skipped))

  candidates_skip :
      (f : Fields) (before rest : List (List ℕ)) (i : ℕ) (caches : lru.State × cache.State)
      → All (λ q. mac_matches blake f q ≡ false) before
      → candidates blake reads lru cache counters_poisoned keys_poisoned now f i
          (before ++ rest)
          caches
        ≡ candidates blake reads lru cache counters_poisoned keys_poisoned now f
            (i + length before)
            rest
            caches
  candidates_skip f [] rest i caches other =
      ap
        (λ (k : ℕ).
          candidates blake reads lru cache counters_poisoned keys_poisoned now f k rest caches)
        (omega arith)
  candidates_skip f (q ∷ before) rest i caches other =
      candidates_step f q (before ++ rest) i caches other.0
      ∙ candidates_skip f before rest (i + 1) caches other.1
      ∙ ap
          (λ (k : ℕ).
            candidates blake reads lru cache counters_poisoned keys_poisoned now f k rest caches)
          (let e : i + 1 + length before ≡ i + suc (length before) = omega arith in e)

  probe_lem :
      (psk psk_e : List ℕ) (counter drawn : ℕ) (init_len : length psk_e ≡ 48) (c : lru.State)
      (keys : cache.State) (request : ReplayCheck)
      → counter < 2 ^ 64
      → bytes_eq (take 32 psk_e) (replicate 32 0) ≡ false
      → reads psk psk_e ≡ some 0
      → (check_counter_replay lru (cache_key_of blake) counters_poisoned c psk counter).0
        ≡ some request
      → (is_replay cache keys_poisoned keys (auth_random blake psk psk_e) now).0 ≡ false
      → (probe blake reads lru cache counters_poisoned keys_poisoned now
          (fields blake psk psk_e counter drawn init_len)
          psk
          (c, keys)).0
        ≡ some request
  unfolding probe check_replay
  probe_lem psk psk_e counter drawn init_len c keys request small nonzero reads_init fresh unseen =
      let f = fields blake psk psk_e counter drawn init_len in
      let raw = counter_agrees blake psk psk_e counter drawn init_len small in
      let e = unmasked blake psk psk_e counter drawn init_len in
      let whole = take-append-drop 32 psk_e in
      rw
        (
          probe,
          mac_agrees blake psk psk_e counter drawn init_len,
          e,
          nonzero,
          whole,
          reads_init,
          check_replay,
          raw,
          fresh,
          unseen,
        )
        refl

  candidates_found :
      (f : Fields) (psk : List ℕ) (rest : List (List ℕ)) (i : ℕ) (caches : lru.State × cache.State)
      (request : ReplayCheck)
      → (probe blake reads lru cache counters_poisoned keys_poisoned now f psk caches).0
        ≡ some request
      → (candidates blake reads lru cache counters_poisoned keys_poisoned now f i
          (psk ∷ rest)
          caches).0
        ≡ some (record { user_index = i; derived_psk = psk; replay_check = request })
  unfolding candidates
  candidates_found f psk rest i caches request e = rw (candidates, e) refl

  authenticate_fields :
      (pld : List ℕ) (f : Fields) (random_range session_range : ℕ × ℕ) (psks : List (List ℕ))
      (caches : lru.State × cache.State)
      → client_hello_random_and_session_id_ranges pld ≡ some (random_range, session_range)
      → ltb (length (slice session_range pld)) 32 ≡ false
      → fields_of (slice random_range pld) (slice session_range pld) ≡ f
      → authenticate_client_hello blake reads lru cache counters_poisoned keys_poisoned now pld psks
          caches
        ≡ candidates blake reads lru cache counters_poisoned keys_poisoned now f 0 psks caches
  unfolding authenticate_client_hello
  authenticate_fields pld f random_range session_range psks caches found long same =
      rw (authenticate_client_hello, found, long)
        (ap
          (λ g.
            candidates blake reads lru cache counters_poisoned keys_poisoned now g 0 psks caches)
          same)

  -- What `sign` writes authenticates a client whose message the Noise responder of its key reads: the
  -- server finds the user, if no key before has the same MAC, with the counter that was signed, if this
  -- is fresh and the ephemeral key was not seen, whatever the free bits and the rest of the record.
  pub authenticate_client_hello-sign :
      (out pld psk psk_e : List ℕ) (before after : List (List ℕ)) (counter drawn : ℕ)
      (c : lru.State) (keys : cache.State) (request : ReplayCheck)
      (random_range session_range : ℕ × ℕ) (init_len : length psk_e ≡ 48)
      → counter < 2 ^ 64
      → bytes_eq (take 32 psk_e) (replicate 32 0) ≡ false
      → reads psk psk_e ≡ some 0
      → client_hello_random_and_session_id_ranges out ≡ some (random_range, session_range)
      → 32 ≤ session_range.1 - session_range.0
      → sign blake out psk psk_e counter drawn ≡ signed pld
      → All
          (λ q. mac_matches blake (fields blake psk psk_e counter drawn init_len) q ≡ false)
          before
      → (check_counter_replay lru (cache_key_of blake) counters_poisoned c psk counter).0
        ≡ some request
      → (is_replay cache keys_poisoned keys (auth_random blake psk psk_e) now).0 ≡ false
      → (authenticate_client_hello blake reads lru cache counters_poisoned keys_poisoned now pld
          (before ++ psk ∷ after)
          (c, keys)).0
        ≡ some (record { user_index = length before; derived_psk = psk; replay_check = request })
  authenticate_client_hello-sign out pld psk psk_e before after counter drawn c keys request
        random_range session_range init_len small nonzero reads_init found long writes others fresh
        unseen =
      let l = lays out (ranges_fit out random_range session_range found long) in
      let random = auth_random blake psk psk_e in
      let random_size = random_len blake psk psk_e counter drawn init_len in
      let sid = session_id_of blake psk psk_e counter drawn init_len in
      let sid_size = session_len blake psk psk_e counter drawn init_len in
      let f = fields blake psk psk_e counter drawn init_len in
      let more = take (l.len - 32) l.back in
      let (found', kept, len) =
        ranges_kept out l random_range session_range random sid random_size sid_size found in
      let roomy : 32 ≤ l.len = omega arith in
      let written : pld ≡ hello l.front random l.len sid l.back =
        signed_same
          (sym writes ∙ sign_lem blake psk psk_e counter drawn init_len out l found' roomy) in
      let at_random =
        slice-random l.front random l.len sid l.back l.front_len random_size sid_size in
      let at_session =
        slice-session l.front random l.len sid l.back l.front_len random_size sid_size roomy in
      let long_enough : ltb (length (sid ++ more)) 32 ≡ false =
        ground (arith, length-append {0} sid more, sid_size) in
      let there = hello l.front random l.len sid l.back in
      let same : fields_of (slice (11, 43) there) (slice (44, 44 + l.len) there) ≡ f =
        ap (λ t. fields_of t (slice (44, 44 + l.len) there)) at_random
        ∙ ap (fields_of random) at_session
        ∙ fields_read blake psk psk_e counter drawn init_len more in
      ap
        (λ p.
          (authenticate_client_hello blake reads lru cache counters_poisoned keys_poisoned now p
            (before ++ psk ∷ after) (c, keys)).0)
        written
      ∙ ap (λ t. t.0)
          (authenticate_fields there f (11, 43) (44, 44 + l.len) (before ++ psk ∷ after) (c, keys)
            kept (ap (λ t. ltb (length t) 32) at_session ∙ long_enough) same)
      ∙ ap (λ t. t.0) (candidates_skip f before (psk ∷ after) 0 (c, keys) others)
      ∙ candidates_found f psk after (0 + length before) (c, keys) request
          (probe_lem psk psk_e counter drawn init_len c keys request small nonzero reads_init fresh
            unseen)
      ∙ ap (λ (k : ℕ). some (record { user_index = k; derived_psk = psk; replay_check = request }))
          (let e : 0 + length before ≡ length before = omega arith in e)

  -- A record whose MAC fits no key changes neither cache.
  pub authenticate_unmatched :
      (pld : List ℕ) (psks : List (List ℕ)) (caches : lru.State × cache.State)
      (random_range session_range : ℕ × ℕ)
      → client_hello_random_and_session_id_ranges pld ≡ some (random_range, session_range)
      → All
          (λ q.
            mac_matches blake (fields_of (slice random_range pld) (slice session_range pld)) q
            ≡ false)
          psks
      → authenticate_client_hello blake reads lru cache counters_poisoned keys_poisoned now pld psks
          caches
        ≡ (none, caches)
  unfolding authenticate_client_hello candidates
  authenticate_unmatched pld psks caches random_range session_range found others =
      let f = fields_of (slice random_range pld) (slice session_range pld) in
      let none_found = candidates_skip f psks [] 0 caches others in
      elim (Bool-cases (ltb (length (slice session_range pld)) 32)) [
        | inl short ↦ rw (authenticate_client_hello, found, short) refl
        | inr long ↦
            rw (authenticate_client_hello, found, long)
              (ap
                  (λ t.
                    candidates blake reads lru cache counters_poisoned keys_poisoned now f 0 t
                      caches)
                  (sym (append-nil psks))
                ∙ none_found)
      ]
