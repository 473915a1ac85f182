-- ===== src/Tunnel/Noise.antt =====
-- The transport state of the `snow` crate in one direction, with what its documentation promises, and
-- `NoiseSender` and `NoiseReceiver` of crates/tunnel/src/common.rs, which count the nonces.
use kanotls.Prelude.{ℕ, ◌+◌, ◌-◌, ◌^◌, ◌≤◌, ◌<◌, ◌≡◌, List, Option, none, some, min, length}

abbrev pub aead_tag_len : ℕ
aead_tag_len = 16

abbrev pub u64_max : ℕ
u64_max = 2 ^ 64 - 1

-- `write_message` and `read_message` of `StatelessTransportState`, at a nonce. A message has at most
-- 65535 bytes, and the last nonce is reserved.
pub record Noise : Type 0 where
  pub write_message : ℕ → List ℕ → Option (List ℕ)
  pub read_message : ℕ → List ℕ → Option (List ℕ)
  pub encrypts :
      (n : ℕ) (payload : List ℕ)
      → n < u64_max
      → length payload + aead_tag_len ≤ 65535
      → (message : List ℕ) × (write_message n payload ≡ some message)
  pub tagged :
      (n : ℕ) (payload message : List ℕ)
      → write_message n payload ≡ some message
      → length message ≡ length payload + aead_tag_len
  pub decrypts :
      (n : ℕ) (payload message : List ℕ)
      → write_message n payload ≡ some message
      → read_message n message ≡ some payload

-- `nonce.saturating_add(1)`.
unfoldable pub next_nonce : ℕ → ℕ
next_nonce n = min (n + 1) u64_max

-- `NoiseSender::write_message` and `NoiseReceiver::read_message`: the result, and the nonce to come,
-- which only a success moves.
unfoldable pub send_message : Noise → ℕ → List ℕ → Option (List ℕ) × ℕ
send_message noise n payload = elim (noise.write_message n payload) [
  | none ↦ (none, n)
  | some message ↦ (some message, next_nonce n)
]

unfoldable pub receive_message : Noise → ℕ → List ℕ → Option (List ℕ) × ℕ
receive_message noise n message = elim (noise.read_message n message) [
  | none ↦ (none, n)
  | some payload ↦ (some payload, next_nonce n)
]
