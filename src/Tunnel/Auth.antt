-- ===== src/Tunnel/Auth.antt =====
-- The authentication that a ClientHello carries: the masks and MACs of crates/tunnel/src/utils.rs, the
-- end of `ClientHelloTemplate::instantiate` of template.rs, which writes them, and
-- `authenticate_client_hello` of server/mod.rs, which checks them. The hash and the Noise handshake
-- come from third-party crates and are arguments.
pub mod Layout
pub mod Written
pub mod Agreed
use Prim.Native.Char.{code}
use Prim.Native.Nat.{bit_xor}
use Prim.Native.String.{String}
use kanotls.Prelude.{
  ℕ, zero, suc, ◌+◌, ◌-◌, ◌*◌, ◌/◌, ◌%◌, ◌^◌, ◌≡◌, List, [], ◌∷◌, ◌++◌, Option, none, some, Bool,
  true, false, if◌then◌else◌, ltb, ◌==◌, not, length, get_or, take, drop, replicate,
}
use kanotls.Prelude.Bytes.{bytes_eq}
use kanotls.Replay.Counter.{LruCache, ReplayCheck, u64_to_be_bytes, check_counter_replay}
use kanotls.Replay.Ephemeral.{KeyCache, is_replay}

abbrev pub codes : String → List ℕ
codes String.[] = []
codes (String.◌∷◌ c s) = code c ∷ codes s

-- BLAKE2b with 32 bytes of output.
pub record Blake2 : Type 0 where
  pub digest : List ℕ → List ℕ
  pub digest_len : (bytes : List ℕ) → length (digest bytes) ≡ 32

unfoldable pub hash_with_key : Blake2 → List ℕ → List ℕ → List ℕ
hash_with_key blake context key = blake.digest (context ++ key)

abbrev pub noise_e_mask_context : List ℕ
noise_e_mask_context = codes "kanotls-noise-e-mask-v1"

abbrev pub counter_mask_context : List ℕ
counter_mask_context = codes "kanotls-counter-mask-v1"

abbrev pub counter_mac_context : List ℕ
counter_mac_context = codes "kanotls-counter-mac-v1"

abbrev pub counter_cache_key_context : List ℕ
counter_cache_key_context = codes "kanotls-counter-cache-key-v1"

unfoldable pub derive_noise_e_mask : Blake2 → List ℕ → List ℕ → List ℕ
derive_noise_e_mask blake derived_psk noise_tag =
    hash_with_key blake noise_e_mask_context (noise_tag ++ derived_psk)

unfoldable pub derive_counter_mask : Blake2 → List ℕ → List ℕ → List ℕ
derive_counter_mask blake derived_psk client_random =
    take 8 (hash_with_key blake counter_mask_context (client_random ++ derived_psk))

unfoldable pub derive_counter_mac : Blake2 → List ℕ → List ℕ → List ℕ → List ℕ → List ℕ
derive_counter_mac blake derived_psk client_random counter_bytes random_prefix = take 8 (
    hash_with_key blake counter_mac_context
      (client_random ++ (counter_bytes ++ (random_prefix ++ derived_psk))))

unfoldable pub derive_counter_cache_key : Blake2 → List ℕ → List ℕ
derive_counter_cache_key blake derived_psk =
    take 16 (hash_with_key blake counter_cache_key_context derived_psk)

-- `xor_32_bytes` and `xor_u64_bytes`, on arrays of one length.
unfoldable pub xor_bytes : List ℕ → List ℕ → List ℕ
xor_bytes [] ys = []
xor_bytes (x ∷ xs) [] = []
xor_bytes (x ∷ xs) (y ∷ ys) = bit_xor x y ∷ xor_bytes xs ys

-- `mac[7] &= !0x03`.
unfoldable pub mask_mac_flags : List ℕ → List ℕ
mask_mac_flags mac = take 7 mac ++ (get_or mac 7 0 / 4 * 4) ∷ drop 8 mac

unfoldable pub mask_noise_ephemeral_key : Blake2 → List ℕ → List ℕ → List ℕ → List ℕ
mask_noise_ephemeral_key blake key derived_psk noise_tag =
    xor_bytes key (derive_noise_e_mask blake derived_psk noise_tag)

unfoldable pub unmask_noise_ephemeral_key : Blake2 → List ℕ → List ℕ → List ℕ → List ℕ
unmask_noise_ephemeral_key blake masked derived_psk noise_tag =
    xor_bytes masked (derive_noise_e_mask blake derived_psk noise_tag)

abbrev pub constant_time_eq : List ℕ → List ℕ → Bool
constant_time_eq a b = bytes_eq a b

-- `bytes[start..end]`.
abbrev pub slice : ℕ × ℕ → List ℕ → List ℕ
slice range bytes = take (range.1 - range.0) (drop range.0 bytes)

-- Where the random and the session id stand in a record.
unfoldable pub client_hello_random_and_session_id_ranges : List ℕ → Option ((ℕ × ℕ) × (ℕ × ℕ))
client_hello_random_and_session_id_ranges bytes =
    let session_id_len = get_or bytes 43 0 in
    if ltb (length bytes) (5 + 44)
    then none
    else if not (get_or bytes 0 0 == 0x16)
    then none
    else if not (get_or bytes 5 0 == 0x01)
    then none
    else if ltb (length bytes) (44 + session_id_len)
    then none
    else some ((11, 43), (44, 44 + session_id_len))

-- The random and the 32 bytes of session id that `instantiate` writes. `drawn` is the random byte that
-- gives the MAC's two free bits.
unfoldable pub auth_random : Blake2 → List ℕ → List ℕ → List ℕ
auth_random blake derived_psk psk_e =
    mask_noise_ephemeral_key blake (take 32 psk_e) derived_psk (drop 32 psk_e)

unfoldable pub masked_counter : Blake2 → List ℕ → List ℕ → ℕ → List ℕ
masked_counter blake derived_psk random counter =
    xor_bytes (u64_to_be_bytes counter) (derive_counter_mask blake derived_psk random)

abbrev pub with_free_bits : ℕ → List ℕ → List ℕ
with_free_bits drawn mac = take 7 mac ++ (get_or mac 7 0 / 4 * 4 + drawn % 4) ∷ []

unfoldable pub auth_session_id : Blake2 → List ℕ → List ℕ → ℕ → ℕ → List ℕ → List ℕ
auth_session_id blake derived_psk psk_e counter drawn random =
    let masked = masked_counter blake derived_psk random counter in
    drop 32 psk_e
    ++ (masked
        ++ with_free_bits drawn
            (derive_counter_mac blake derived_psk random masked (take 16 random)))

-- `copy_from_slice` at an offset.
abbrev pub write_at : ℕ → List ℕ → List ℕ → List ℕ
write_at start new bytes = take start bytes ++ (new ++ drop (start + length new) bytes)

pub data Signed : Type 0 where
  signed : List ℕ → Signed
  bad_noise_init : Signed
  missing_fields : Signed
  panicked : Signed

-- The part of `instantiate` that writes the two fields, into a ClientHello that has its other fields,
-- with the test of the Noise message's length that it begins with.
unfoldable pub sign : Blake2 → List ℕ → List ℕ → List ℕ → ℕ → ℕ → Signed
sign blake out derived_psk psk_e counter drawn =
    let random = auth_random blake derived_psk psk_e in
    if not (length psk_e == 48)
    then bad_noise_init
    else (elim (client_hello_random_and_session_id_ranges out) [
      | none ↦ missing_fields
      | some (random_range, session_range) ↦
          if ltb (session_range.1 - session_range.0) 32
          then panicked
          else signed (
              write_at session_range.0
                (auth_session_id blake derived_psk psk_e counter drawn random)
                (write_at random_range.0 random out))
    ])

-- `u64::from_be_bytes`, and the same for the bytes of a key.
abbrev pub from_be_bytes : ℕ → List ℕ → ℕ
from_be_bytes acc [] = acc
from_be_bytes acc (b ∷ bs) = from_be_bytes (acc * 256 + b) bs

pub record AuthSuccess : Type 0 where
  pub user_index : ℕ
  pub derived_psk : List ℕ
  pub replay_check : ReplayCheck

-- What the server reads from the record.
pub record Fields : Type 0 where
  pub random : List ℕ
  pub client_noise_tag : List ℕ
  pub masked : List ℕ
  pub got_mac : List ℕ

abbrev pub fields_of : List ℕ → List ℕ → Fields
fields_of random session_id = record {
  random = random;
  client_noise_tag = take 16 session_id;
  masked = take 8 (drop 16 session_id);
  got_mac = mask_mac_flags (take 8 (drop 24 session_id));
}

abbrev pub cache_key_of : Blake2 → List ℕ → ℕ
cache_key_of blake material = from_be_bytes 0 (derive_counter_cache_key blake material)

unfoldable pub mac_matches : Blake2 → Fields → List ℕ → Bool
mac_matches blake f derived_psk =
    constant_time_eq f.got_mac
      (mask_mac_flags (derive_counter_mac blake derived_psk f.random f.masked (take 16 f.random)))

unfoldable pub raw_counter : Blake2 → Fields → List ℕ → ℕ
raw_counter blake f derived_psk =
    from_be_bytes 0 (xor_bytes f.masked (derive_counter_mask blake derived_psk f.random))

-- `reads` is the Noise responder of a key, built and given the first message: the length of what it
-- decrypts. The two tests say that a lock is poisoned.
module _ (blake : Blake2) (reads : List ℕ → List ℕ → Option ℕ) (lru : LruCache) (cache : KeyCache)
    (counters_poisoned keys_poisoned : Bool) (now : ℕ) where
  abbrev pub Caches : Type 0
  Caches = lru.State × cache.State

  -- The two checks against replay.
  unfoldable pub check_replay : Fields → List ℕ → Caches → Option ReplayCheck × Caches
  check_replay f derived_psk (c, keys) =
      let (check, c') =
        check_counter_replay lru (cache_key_of blake) counters_poisoned c derived_psk
          (raw_counter blake f derived_psk) in
      (elim check [
        | none ↦ (none, (c', keys))
        | some request ↦
            let (seen, keys') = is_replay cache keys_poisoned keys f.random now in
            if seen then (none, (c', keys')) else (some request, (c', keys'))
      ])

  -- One candidate.
  unfoldable pub probe : Fields → List ℕ → Caches → Option ReplayCheck × Caches
  probe f derived_psk caches =
      let recovered_e = unmask_noise_ephemeral_key blake f.random derived_psk f.client_noise_tag in
      if not (mac_matches blake f derived_psk)
      then (none, caches)
      else if bytes_eq recovered_e (replicate 32 0)
      then (none, caches)
      else (elim (reads derived_psk (recovered_e ++ f.client_noise_tag)) [
        | none ↦ (none, caches)
        | some len ↦ if len == 0 then check_replay f derived_psk caches else (none, caches)
      ])

  unfoldable pub candidates : Fields → ℕ → List (List ℕ) → Caches → Option AuthSuccess × Caches
  candidates f user_index [] caches = (none, caches)
  candidates f user_index (psk ∷ psks) caches =
      let (result, caches') = probe f psk caches in
      let rest = candidates f (user_index + 1) psks caches' in
      (elim result [
        | none ↦ rest
        | some check ↦ (
          some (record { user_index = user_index; derived_psk = psk; replay_check = check }),
          caches',
        )
      ])

  unfoldable pub authenticate_client_hello :
      List ℕ → List (List ℕ) → Caches → Option AuthSuccess × Caches
  authenticate_client_hello pld derived_psks caches =
      elim (client_hello_random_and_session_id_ranges pld) [
        | none ↦ (none, caches)
        | some (random_range, session_id_range) ↦
            let session_id = slice session_id_range pld in
            if ltb (length session_id) 32
            then (none, caches)
            else candidates (fields_of (slice random_range pld) session_id) 0 derived_psks caches
      ]
