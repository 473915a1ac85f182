-- ===== src/Tunnel/Writing/Sizes.antt =====
-- The records that are prepared have the size that was asked for.
use kanotls.Prelude.{
  ℕ, ◌+◌, ◌-◌, ◌≤◌, ◌<◌, ◌≡◌, refl, List, [], ◌∷◌, ◌++◌, some, false, ltb, ◌||◌, arith, min, max,
  length, replicate, length-append, length-replicate,
}
use kanotls.Tunnel.Noise.{Noise, send_message, next_nonce, u64_max}
use kanotls.Tunnel.Writing.{
  SnowyWriteHalf, prepared, panicked, block, tls_record, encrypt_variable_block, target_plaintext,
  prepare_data_record, block_data_capacity, data_record_wire_len, max_data_record_wire_len,
}

pub length-block :
    (payload : List ℕ) (target : ℕ)
    → length payload + 3 ≤ target
    → length (block payload target) ≡ target
unfolding block
length-block payload target h =
    let pad : List ℕ = replicate (target - 1 - (2 + length payload)) 0 in
    omega (
      arith,
      length-append {0} payload (pad ++ 0x17 ∷ []),
      length-append {0} pad (0x17 ∷ []),
      length-replicate {A = ℕ} (target - 1 - (2 + length payload)) 0,
    )

pub length-tls_record : (ct : List ℕ) → length (tls_record ct) ≡ length ct + 5
unfolding tls_record
length-tls_record ct = omega arith

-- A record that was added to a buffer.
pub record Added (noise : Noise) (n : ℕ) (payload : List ℕ) (target_wire_len : ℕ)
    (before after : List ℕ) : Type 0 where
  pub ct : List ℕ
  pub sealed :
      noise.write_message n (block payload (target_plaintext payload target_wire_len)) ≡ some ct
  pub bytes : after ≡ before ++ tls_record ct
  pub size : length ct ≡ target_plaintext payload target_wire_len + 16

pub target_fits :
    (payload : List ℕ) (target_wire_len : ℕ)
    → length payload ≤ block_data_capacity
    → (length payload + 3 ≤ target_plaintext payload target_wire_len)
      × (target_plaintext payload target_wire_len ≤ 16385)
unfolding target_plaintext
target_fits payload target_wire_len h = omega arith

send_message_lem :
    (noise : Noise) (n : ℕ) (payload ct : List ℕ)
    → noise.write_message n payload ≡ some ct
    → send_message noise n payload ≡ (some ct, next_nonce n)
unfolding send_message
send_message_lem noise n payload ct e = rw (send_message, e) refl

encrypt_lem :
    (noise : Noise) (w : SnowyWriteHalf) (payload ct : List ℕ) (target : ℕ)
    → ltb target (length payload + 2 + 1) || ltb 16385 target ≡ false
    → noise.write_message w.nonce (block payload target) ≡ some ct
    → encrypt_variable_block noise w payload target
      ≡ prepared
          (record w { nonce = next_nonce w.nonce; write_buffer = w.write_buffer ++ tls_record ct })
unfolding encrypt_variable_block
encrypt_lem noise w payload ct target in_range sealed =
    let sends = send_message_lem noise w.nonce (block payload target) ct sealed in
    rw (encrypt_variable_block, in_range, sends) (rw sends refl)

-- A payload that fits is encrypted while nonces last.
pub encrypts_once :
    (noise : Noise) (w : SnowyWriteHalf) (payload : List ℕ) (target_wire_len : ℕ)
    → length payload ≤ block_data_capacity
    → w.nonce < u64_max
    → (ct : List ℕ) × (noise.write_message w.nonce
          (block payload (target_plaintext payload target_wire_len))
        ≡ some ct)
      × (length ct ≡ target_plaintext payload target_wire_len + 16)
      × (encrypt_variable_block noise w payload (target_plaintext payload target_wire_len)
          ≡ prepared (record w {
            nonce = next_nonce w.nonce;
            write_buffer = w.write_buffer ++ tls_record ct;
          }))
encrypts_once noise w payload target_wire_len fits left =
    let target = target_plaintext payload target_wire_len in
    let (low, high) = target_fits payload target_wire_len fits in
    let size = length-block payload target low in
    let (ct, sealed) = noise.encrypts w.nonce (block payload target) left (omega arith) in
    (
      ct,
      sealed,
      omega (arith, noise.tagged w.nonce (block payload target) ct sealed),
      encrypt_lem noise w payload ct target (ground arith) sealed,
    )

-- A data record takes exactly the size that was asked for, except that it is long enough for its
-- payload and not longer than a full record; a payload up to the capacity is never refused while
-- nonces last, and the record goes behind what was in the buffer.
pub prepare_data_record_sizes :
    (noise : Noise) (w : SnowyWriteHalf) (payload : List ℕ) (target_wire_len : ℕ)
    → length payload ≤ block_data_capacity
    → w.nonce < u64_max
    → (w' : SnowyWriteHalf) × (bytes : List ℕ) × (prepare_data_record noise w payload
          target_wire_len
        ≡ prepared w')
      × (w'.write_buffer ≡ w.write_buffer ++ bytes)
      × (length bytes
          ≡ min
              (max target_wire_len (data_record_wire_len (length payload)))
              max_data_record_wire_len)
      × (w'.nonce ≡ w.nonce + 1)
unfolding prepare_data_record next_nonce target_plaintext
prepare_data_record_sizes noise w payload target_wire_len fits left =
    let (ct, sealed, size, runs) = encrypts_once noise w payload target_wire_len fits left in
    (
      record w { nonce = next_nonce w.nonce; write_buffer = w.write_buffer ++ tls_record ct },
      tls_record ct,
      runs,
      refl,
      omega (arith, length-tls_record ct),
      omega arith,
    )

-- A payload beyond the capacity of a record trips the assertion.
pub prepare_data_record-panicked :
    (noise : Noise) (w : SnowyWriteHalf) (payload : List ℕ) (target_wire_len : ℕ)
    → block_data_capacity < length payload
    → prepare_data_record noise w payload target_wire_len ≡ panicked
unfolding prepare_data_record encrypt_variable_block target_plaintext
prepare_data_record-panicked noise w payload target_wire_len h = ground arith
