-- ===== src/Tests/Auths.antt =====
-- The authentication of a ClientHello at concrete inputs, with a hash that repeats the sum of its
-- bytes, caches that are functions and lists, and a responder that reads one message.
use kanotls.Prelude.{
  ℕ, ◌%◌, ◌≡◌, refl, List, [], ◌∷◌, ◌++◌, Option, none, some, false, if◌then◌else◌, replicate,
  length-replicate, take, arith,
}
use kanotls.Prelude.Bytes.{bytes_eq}
use kanotls.Replay.Counter.{ReplayCheck, key_of, check_counter_replay}
use kanotls.Replay.Ephemeral.{is_replay}
use kanotls.Tests.Counters.{unbounded, sum_of}
use kanotls.Tests.Ephemerals.{list_cache, has_key}
use kanotls.Tunnel.Auth.{
  Blake2, hash_with_key, derive_noise_e_mask, derive_counter_mask, derive_counter_mac, xor_bytes,
  mask_mac_flags, mask_noise_ephemeral_key, client_hello_random_and_session_id_ranges, auth_random,
  masked_counter, auth_session_id, signed, sign, AuthSuccess, fields_of, slice, mac_matches,
  authenticate_client_hello, cache_key_of,
}
use kanotls.Tunnel.Auth.Agreed.{authenticate_client_hello-sign, authenticate_unmatched}
use kanotls.Tunnel.Auth.Written.{fields}

abbrev sum_digest : Blake2
sum_digest = record {
  digest = λ bytes. replicate 32 (sum_of bytes % 256);
  digest_len = λ bytes. length-replicate 32 (sum_of bytes % 256);
}

-- A ClientHello with 76 bytes and two more.
abbrev a_hello : List ℕ
a_hello =
    (0x16 ∷ 3 ∷ 1 ∷ 0 ∷ 73 ∷ 1 ∷ 0 ∷ 0 ∷ 69 ∷ 3 ∷ 3 ∷ [])
    ++ (replicate 32 0 ++ (32 ∷ (replicate 32 0 ++ 5 ∷ 6 ∷ [])))

abbrev a_psk : List ℕ
a_psk = replicate 32 4

abbrev other_psk : List ℕ
other_psk = replicate 32 5

abbrev an_init : List ℕ
an_init = replicate 32 9 ++ replicate 16 2

abbrev reads_an_init : List ℕ → List ℕ → Option ℕ
reads_an_init psk init =
    if bytes_eq psk a_psk then (if bytes_eq init an_init then some 0 else none) else none

abbrev a_counter : ℕ
a_counter = 16777221

abbrev signed_hello : List ℕ
signed_hello =
    (0x16 ∷ 3 ∷ 1 ∷ 0 ∷ 73 ∷ 1 ∷ 0 ∷ 0 ∷ 69 ∷ 3 ∷ 3 ∷ [])
    ++ (auth_random sum_digest a_psk an_init
        ++ (32
            ∷ (auth_session_id sum_digest a_psk an_init a_counter 7
                  (auth_random sum_digest a_psk an_init)
                ++ 5 ∷ 6 ∷ [])))

ranges_found : client_hello_random_and_session_id_ranges a_hello ≡ some ((11, 43), (44, 76))
unfolding client_hello_random_and_session_id_ranges
ranges_found = refl

hello_signed : sign sum_digest a_hello a_psk an_init a_counter 7 ≡ signed signed_hello
unfolding sign client_hello_random_and_session_id_ranges auth_random auth_session_id masked_counter
    mask_noise_ephemeral_key derive_noise_e_mask derive_counter_mask derive_counter_mac
    hash_with_key xor_bytes
hello_signed = refl

a_check : ReplayCheck
a_check = record {
  cache_key = key_of unbounded (cache_key_of sum_digest) a_psk a_counter;
  sequence = 5;
}

checked_here :
    (check_counter_replay unbounded (cache_key_of sum_digest) false (λ k. none) a_psk a_counter).0
    ≡ some a_check
unfolding a_check check_counter_replay
checked_here = refl

unseen_here : (is_replay list_cache false [] (auth_random sum_digest a_psk an_init) 5).0 ≡ false
unfolding is_replay has_key auth_random mask_noise_ephemeral_key derive_noise_e_mask hash_with_key
    xor_bytes
unseen_here = refl

abbrev a_record : AuthSuccess
a_record = record { user_index = 1; derived_psk = a_psk; replay_check = a_check }

other_mac :
    mac_matches sum_digest (fields sum_digest a_psk an_init a_counter 7 refl) other_psk ≡ false
unfolding mac_matches mask_mac_flags derive_counter_mac hash_with_key auth_random masked_counter
    mask_noise_ephemeral_key derive_noise_e_mask derive_counter_mask xor_bytes bytes_eq
other_mac = refl

unsigned_mac :
    mac_matches sum_digest (fields_of (slice (11, 43) a_hello) (slice (44, 76) a_hello)) a_psk
    ≡ false
unfolding mac_matches mask_mac_flags derive_counter_mac hash_with_key bytes_eq
unsigned_mac = refl

init_nonzero : bytes_eq (take 32 an_init) (replicate 32 0) ≡ false
unfolding bytes_eq
init_nonzero = refl

init_reads : reads_an_init a_psk an_init ≡ some 0
unfolding bytes_eq
init_reads = refl

authenticate_client_hello-sign_example :
    (authenticate_client_hello sum_digest reads_an_init unbounded list_cache false false 5
      signed_hello
      (other_psk ∷ a_psk ∷ [])
      ((λ k. none), [])).0
    ≡ some a_record
authenticate_client_hello-sign_example =
    authenticate_client_hello-sign sum_digest reads_an_init unbounded list_cache false false 5
      a_hello signed_hello a_psk an_init (other_psk ∷ []) [] a_counter 7 (λ k. none) [] a_check
      (11, 43) (44, 76) refl (omega arith) init_nonzero init_reads ranges_found (omega arith)
      hello_signed (other_mac, tt) checked_here unseen_here

authenticate_unmatched_example :
    authenticate_client_hello sum_digest reads_an_init unbounded list_cache false false 5 a_hello
      (a_psk ∷ [])
      ((λ k. none), [])
    ≡ (none, ((λ k. none), []))
authenticate_unmatched_example =
    authenticate_unmatched sum_digest reads_an_init unbounded list_cache false false 5 a_hello
      (a_psk ∷ []) ((λ k. none), []) (11, 43) (44, 76) ranges_found (unsigned_mac, tt)
