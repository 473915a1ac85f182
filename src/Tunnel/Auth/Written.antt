-- ===== src/Tunnel/Auth/Written.antt =====
-- What `sign` writes into a ClientHello, and what the server reads there.
use kanotls.Prelude.{
  ℕ, ◌+◌, ◌-◌, ◌*◌, ◌/◌, ◌%◌, ◌^◌, ◌≤◌, ◌<◌, ◌≡◌, sym, ap, ◌∙◌, List, [], ◌∷◌, ◌++◌, some, true,
  false, ltb, ◌==◌, arith, length, get_or, take, drop, length-append, length-take, length-drop,
  take-append, drop-append, append_assoc,
}
use kanotls.Prelude.Bytes.{bytes_eq_refl}
use kanotls.Replay.Counter.{u64_to_be_bytes}
use kanotls.Tunnel.Auth.{
  Blake2, hash_with_key, derive_noise_e_mask, derive_counter_mask, derive_counter_mac, xor_bytes,
  mask_mac_flags, mask_noise_ephemeral_key, unmask_noise_ephemeral_key, slice,
  client_hello_random_and_session_id_ranges, write_at, auth_random, masked_counter, with_free_bits,
  auth_session_id, Signed, signed, sign, from_be_bytes, AuthSuccess, Fields, fields_of, mac_matches,
  raw_counter, check_replay, probe, candidates, authenticate_client_hello, Caches, cache_key_of,
}
use kanotls.Tunnel.Auth
use kanotls.Tunnel.Plain.Turns.{drop-all}
use kanotls.Tunnel.Auth.Layout.{
  length-xor_bytes, xor_bytes_twice, write_at-middle, hello, get_or-behind, Laid,
}

-- The eight bytes of a u64 are read back.
u64_round_trip : (n : ℕ) → n < 2 ^ 64 → from_be_bytes 0 (u64_to_be_bytes n) ≡ n
u64_round_trip n h = omega arith

mask_len : (blake : Blake2) (psk tag : List ℕ) → length (derive_noise_e_mask blake psk tag) ≡ 32
unfolding derive_noise_e_mask hash_with_key
mask_len blake psk tag = blake.digest_len _

counter_mask_len :
    (blake : Blake2) (psk random : List ℕ) → length (derive_counter_mask blake psk random) ≡ 8
unfolding derive_counter_mask hash_with_key
counter_mask_len blake psk random =
    let bytes = hash_with_key blake Auth.counter_mask_context (random ++ psk) in
    omega
      (arith, length-take 8 bytes, blake.digest_len (Auth.counter_mask_context ++ (random ++ psk)))

mac_len :
    (blake : Blake2) (psk random counter prefix : List ℕ)
    → length (derive_counter_mac blake psk random counter prefix) ≡ 8
unfolding derive_counter_mac hash_with_key
mac_len blake psk random counter prefix = omega (
  arith,
  length-take 8
      (hash_with_key blake Auth.counter_mac_context (random ++ (counter ++ (prefix ++ psk)))),
  blake.digest_len (Auth.counter_mac_context ++ (random ++ (counter ++ (prefix ++ psk)))),
)

-- The two free bits of the MAC are not compared.
free_bits :
    (drawn : ℕ) (mac : List ℕ)
    → length mac ≡ 8
    → mask_mac_flags (with_free_bits drawn mac) ≡ mask_mac_flags mac
unfolding mask_mac_flags
free_bits drawn mac size =
    let front = take 7 mac in
    let old = get_or mac 7 0 in
    let new = old / 4 * 4 + drawn % 4 in
    let front_len : length front ≡ 7 = omega (arith, length-take 7 mac) in
    let kept = take-append 7 front (new ∷ []) front_len in
    let at_7 : get_or (front ++ new ∷ []) 7 0 ≡ new =
      get_or-behind 7 0 front (new ∷ []) 0 front_len in
    let none_after : drop 8 (front ++ new ∷ []) ≡ [] =
      drop-all 8 (front ++ new ∷ []) (omega (arith, length-append {0} front (new ∷ []))) in
    let none_behind : drop 8 mac ≡ [] = drop-all 8 mac (omega arith) in
    let same : new / 4 * 4 ≡ old / 4 * 4 = omega arith in
    rw (mask_mac_flags, kept, at_7, none_after, none_behind) (ap (λ (k : ℕ). front ++ k ∷ []) same)

with_free_bits_len :
    (drawn : ℕ) (mac : List ℕ) → length mac ≡ 8 → length (with_free_bits drawn mac) ≡ 8
with_free_bits_len drawn mac size = omega (
  arith,
  length-append {0} (take 7 mac) ((get_or mac 7 0 / 4 * 4 + drawn % 4) ∷ []),
  length-take 7 mac,
)

module _ (blake : Blake2) (psk psk_e : List ℕ) (counter drawn : ℕ)
    (init_len : length psk_e ≡ 48) where
  -- What is written, and what the server makes of it.
  abbrev pub random_of : List ℕ
  random_of = auth_random blake psk psk_e

  abbrev pub session_id_of : List ℕ
  session_id_of = auth_session_id blake psk psk_e counter drawn random_of

  pub random_len : length random_of ≡ 32
  unfolding auth_random mask_noise_ephemeral_key
  random_len = omega (
    arith,
    length-xor_bytes (take 32 psk_e) (derive_noise_e_mask blake psk (drop 32 psk_e)),
    mask_len blake psk (drop 32 psk_e),
    length-take 32 psk_e,
  )

  pub unmasked : unmask_noise_ephemeral_key blake random_of psk (drop 32 psk_e) ≡ take 32 psk_e
  unfolding auth_random mask_noise_ephemeral_key unmask_noise_ephemeral_key
  unmasked =
      xor_bytes_twice (take 32 psk_e) (derive_noise_e_mask blake psk (drop 32 psk_e))
        (omega (arith, mask_len blake psk (drop 32 psk_e), length-take 32 psk_e))

  abbrev masked_of : List ℕ
  masked_of = masked_counter blake psk random_of counter

  abbrev mac_of : List ℕ
  mac_of = derive_counter_mac blake psk random_of masked_of (take 16 random_of)

  masked_len : length masked_of ≡ 8
  unfolding masked_counter
  masked_len = omega (
    arith,
    length-xor_bytes (u64_to_be_bytes counter) (derive_counter_mask blake psk random_of),
    counter_mask_len blake psk random_of,
  )

  tag_len : length (drop 32 psk_e) ≡ 16
  tag_len = omega (arith, length-drop 32 psk_e)

  pub session_len : length session_id_of ≡ 32
  unfolding auth_session_id
  session_len = omega (
    arith,
    length-append {0} (drop 32 psk_e) (masked_of ++ with_free_bits drawn mac_of),
    length-append {0} masked_of (with_free_bits drawn mac_of),
    with_free_bits_len drawn mac_of (mac_len blake psk random_of masked_of (take 16 random_of)),
    masked_len,
    tag_len,
  )

  -- The server's fields, whatever follows the 32 bytes.
  abbrev pub fields : Fields
  fields = record {
    random = random_of;
    client_noise_tag = drop 32 psk_e;
    masked = masked_of;
    got_mac = mask_mac_flags mac_of;
  }

  pub fields_read : (more : List ℕ) → fields_of random_of (session_id_of ++ more) ≡ fields
  unfolding auth_session_id
  fields_read more =
      let tag = drop 32 psk_e in
      let mac = mac_of in
      let last = with_free_bits drawn mac ++ more in
      let mac_size = mac_len blake psk random_of masked_of (take 16 random_of) in
      let split : session_id_of ++ more ≡ tag ++ (masked_of ++ last) =
        append_assoc tag (masked_of ++ with_free_bits drawn mac) more
        ∙ ap (λ t. tag ++ t) (append_assoc masked_of (with_free_bits drawn mac) more) in
      let at_tag : take 16 (session_id_of ++ more) ≡ tag =
        ap (take 16) split ∙ take-append 16 tag (masked_of ++ last) tag_len in
      let at_masked : drop 16 (session_id_of ++ more) ≡ masked_of ++ last =
        ap (drop 16) split ∙ drop-append 16 tag (masked_of ++ last) tag_len in
      let at_mac : drop 24 (session_id_of ++ more) ≡ last =
        ap (drop 24) (split ∙ sym (append_assoc tag masked_of last))
        ∙ drop-append 24 (tag ++ masked_of) last
            (omega (arith, length-append {0} tag masked_of, tag_len, masked_len)) in
      let got : mask_mac_flags (take 8 (drop 24 (session_id_of ++ more))) ≡ mask_mac_flags mac =
        ap (λ t. mask_mac_flags (take 8 t)) at_mac
        ∙ ap mask_mac_flags
            (take-append 8 (with_free_bits drawn mac) more (with_free_bits_len drawn mac mac_size))
        ∙ free_bits drawn mac mac_size in
      let masked : take 8 (drop 16 (session_id_of ++ more)) ≡ masked_of =
        ap (take 8) at_masked ∙ take-append 8 masked_of last masked_len in
      λ i. record {
        random = random_of;
        client_noise_tag = at_tag i;
        masked = masked i;
        got_mac = got i;
      }

  pub mac_agrees : mac_matches blake fields psk ≡ true
  unfolding mac_matches
  mac_agrees = bytes_eq_refl (mask_mac_flags mac_of)

  pub counter_agrees : counter < 2 ^ 64 → raw_counter blake fields psk ≡ counter
  unfolding raw_counter masked_counter
  counter_agrees small =
      ap (from_be_bytes 0) (
        xor_bytes_twice (u64_to_be_bytes counter) (derive_counter_mask blake psk random_of)
          (omega (arith, counter_mask_len blake psk random_of)))
      ∙ u64_round_trip counter small

  -- The record that is written, from the layout of the one it is written into.
  pub sign_lem :
      (out : List ℕ) (l : Laid out)
      → client_hello_random_and_session_id_ranges out ≡ some ((11, 43), (44, 44 + l.len))
      → 32 ≤ l.len
      → sign blake out psk psk_e counter drawn
        ≡ signed (hello l.front random_of l.len session_id_of l.back)
  unfolding sign
  sign_lem out l found long =
      let sized : length psk_e == 48 ≡ true = ground arith in
      let roomy : ltb (44 + l.len - 44) 32 ≡ false = ground arith in
      let behind = l.len ∷ (l.session_id ++ l.back) in
      let first : write_at 11 random_of out ≡ hello l.front random_of l.len l.session_id l.back =
        ap (write_at 11 random_of) l.laid
        ∙ write_at-middle 11 l.front l.random random_of behind l.front_len
            (omega (arith, l.random_len, random_len)) in
      let before = (l.front ++ random_of) ++ l.len ∷ [] in
      let regroup : (s : List ℕ)
          → hello l.front random_of l.len s l.back ≡ before ++ (s ++ l.back) =
        λ s.
          sym (append_assoc l.front random_of (l.len ∷ (s ++ l.back)))
          ∙ sym (append_assoc (l.front ++ random_of) (l.len ∷ []) (s ++ l.back)) in
      let second : write_at 44 session_id_of (write_at 11 random_of out)
          ≡ hello l.front random_of l.len session_id_of l.back =
        ap (write_at 44 session_id_of) (first ∙ regroup l.session_id)
        ∙ write_at-middle 44 before l.session_id session_id_of l.back
            (omega (
              arith,
              length-append {0} l.front random_of,
              length-append {0} (l.front ++ random_of) (l.len ∷ []),
              l.front_len,
              random_len,
            ))
            (omega (arith, l.session_len, session_len))
        ∙ sym (regroup session_id_of) in
      rw (sign, sized, found, roomy) (ap signed second)
