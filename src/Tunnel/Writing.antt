-- ===== src/Tunnel/Writing.antt =====
-- crates/tunnel/src/common.rs, the writing half of `SnowyStream`: the records of a chosen size, and the
-- flush and the shutdown of its buffer.
pub mod Sizes
pub mod Flushes
use kanotls.Prelude.{
  ℕ, ◌+◌, ◌-◌, ◌^◌, List, [], ◌∷◌, ◌++◌, Option, none, some, Bool, true, false, if◌then◌else◌, ltb,
  ◌==◌, ◌||◌, min, max, length, drop, take, replicate,
}
use kanotls.Prelude.Bytes.{u16_to_be_bytes, as_u16}
use kanotls.ControlSize.{block_len_prefix_size}
use kanotls.Tunnel.Noise.{Noise, send_message, aead_tag_len, u64_max}

abbrev pub tls_record_header_len : ℕ
tls_record_header_len = 5

abbrev pub inner_content_type_len : ℕ
inner_content_type_len = 1

abbrev pub inner_content_type_app_data : ℕ
inner_content_type_app_data = 0x17

abbrev pub inner_content_type_alert : ℕ
inner_content_type_alert = 0x15

abbrev pub block_plaintext_size : ℕ
block_plaintext_size = 16384 + inner_content_type_len

abbrev pub block_data_capacity : ℕ
block_data_capacity = block_plaintext_size - block_len_prefix_size - inner_content_type_len

abbrev pub data_record_wire_len : ℕ → ℕ
data_record_wire_len payload_len =
    tls_record_header_len + block_len_prefix_size + payload_len + inner_content_type_len
    + aead_tag_len

abbrev pub max_data_record_wire_len : ℕ
max_data_record_wire_len = tls_record_header_len + block_plaintext_size + aead_tag_len

-- What the two halves share.
pub record SnowyShared : Type 0 where
  pub closed : Bool
  pub close_notify_written : Bool

pub record SnowyWriteHalf : Type 0 where
  pub nonce : ℕ
  pub write_buffer : List ℕ
  pub write_offset : ℕ
  pub control_frame_count : ℕ

-- The result of preparing a record. A failed assertion panics.
pub data Prepared : Type 0 where
  prepared : SnowyWriteHalf → Prepared
  encrypt_failed : SnowyWriteHalf → Prepared
  panicked : Prepared

-- The plaintext of a record: the payload behind its length, the padding, and the content type.
unfoldable pub block : List ℕ → ℕ → List ℕ
block payload target_plaintext_len =
    u16_to_be_bytes (as_u16 (length payload))
    ++ (payload
        ++ (replicate (target_plaintext_len - 1 - (block_len_prefix_size + length payload)) 0
            ++ inner_content_type_app_data ∷ []))

-- The header of a record and its ciphertext.
unfoldable pub tls_record : List ℕ → List ℕ
tls_record ct = 0x17 ∷ 0x03 ∷ 0x03 ∷ (u16_to_be_bytes (as_u16 (length ct)) ++ ct)

-- The buffer is made longer before the encryption, and a failure leaves it so.
unfoldable pub encrypt_variable_block : Noise → SnowyWriteHalf → List ℕ → ℕ → Prepared
encrypt_variable_block noise w payload target_plaintext_len =
    if ltb target_plaintext_len (length payload + block_len_prefix_size + inner_content_type_len)
      || ltb block_plaintext_size target_plaintext_len
    then panicked
    else (elim (send_message noise w.nonce (block payload target_plaintext_len)).0 [
      | none ↦ encrypt_failed (record w {
        write_buffer =
            w.write_buffer
            ++ replicate (tls_record_header_len + (target_plaintext_len + aead_tag_len)) 0;
      })
      | some ct ↦ prepared (record w {
        nonce = (send_message noise w.nonce (block payload target_plaintext_len)).1;
        write_buffer = w.write_buffer ++ tls_record ct;
      })
    ])

unfoldable pub target_plaintext : List ℕ → ℕ → ℕ
target_plaintext payload target_wire_len =
    min
      (max (target_wire_len - (tls_record_header_len + aead_tag_len))
        (length payload + block_len_prefix_size + inner_content_type_len))
      block_plaintext_size

unfoldable pub prepare_data_record : Noise → SnowyWriteHalf → List ℕ → ℕ → Prepared
prepare_data_record noise w payload target_wire_len =
    encrypt_variable_block noise w payload (target_plaintext payload target_wire_len)

-- The counter of control records is moved first.
unfoldable pub prepare_control_record : Noise → SnowyWriteHalf → List ℕ → ℕ → Prepared
prepare_control_record noise w payload target_wire_len =
    encrypt_variable_block noise
      (record w { control_frame_count = min (w.control_frame_count + 1) u64_max }) payload
      (target_plaintext payload target_wire_len)

unfoldable pub buffered_write_len : SnowyWriteHalf → ℕ
buffered_write_len w = length w.write_buffer - w.write_offset

-- What the socket answers to one write: it takes so many bytes, or fails. When no answer is left, it
-- is not ready.
pub data Accepts : Type 0 where
  takes : ℕ → Accepts
  refuses : Accepts

pub data Flushed : Type 0 where
  flushed : Flushed
  write_zero : Flushed
  write_failed : Flushed

-- A socket's side: what it still answers, and the bytes that it took.
pub record Peer : Type 0 where
  pub answers : List Accepts
  pub sent : List ℕ

-- The loop of `try_flush_write_buffer`, on the answers that are left: it ends well also when the
-- socket is not ready.
unfoldable pub flush_loop : List Accepts → SnowyWriteHalf → List ℕ → Flushed × SnowyWriteHalf × Peer
flush_loop [] w sent =
    if ltb w.write_offset (length w.write_buffer)
    then (flushed, w, record { answers = []; sent = sent })
    else (
      flushed,
      record w { write_offset = 0; write_buffer = [] },
      record { answers = []; sent = sent },
    )
flush_loop (a ∷ as') w sent =
    let taken = λ (k : ℕ). min k (length w.write_buffer - w.write_offset) in
    let rest = λ (k : ℕ).
      flush_loop as' (record w { write_offset = w.write_offset + taken k })
        (sent ++ take (taken k) (drop w.write_offset w.write_buffer)) in
    if ltb w.write_offset (length w.write_buffer)
    then (elim a [
      | refuses ↦ (write_failed, w, record { answers = as'; sent = sent })
      | takes k ↦
          if taken k == 0 then (write_zero, w, record { answers = as'; sent = sent }) else rest k
    ])
    else (
      flushed,
      record w { write_offset = 0; write_buffer = [] },
      record { answers = a ∷ as'; sent = sent },
    )

unfoldable pub try_flush_write_buffer : SnowyWriteHalf → Peer → Flushed × SnowyWriteHalf × Peer
unfolding flush_loop
try_flush_write_buffer w p = flush_loop p.answers w p.sent

pub data Poll : Type 0 where
  ready : Poll
  poll_failed : Flushed → Poll
  pending : Poll

-- `poll_flush` after its loop; what the socket's own flush answers is an argument.
unfoldable pub after_flush : Poll → Flushed → SnowyWriteHalf → Peer → Poll × SnowyWriteHalf × Peer
after_flush socket_flush flushed w p =
    if length w.write_buffer == 0 then (socket_flush, w, p) else (pending, w, p)
after_flush socket_flush write_zero w p = (poll_failed write_zero, w, p)
after_flush socket_flush write_failed w p = (poll_failed write_failed, w, p)

unfoldable pub poll_flush : Poll → SnowyWriteHalf → Peer → Poll × SnowyWriteHalf × Peer
unfolding after_flush try_flush_write_buffer
poll_flush socket_flush w p =
    let (result, w', p') = try_flush_write_buffer w p in after_flush socket_flush result w' p'

abbrev pub close_notify : List ℕ
close_notify = 0x01 ∷ 0x00 ∷ inner_content_type_alert ∷ []

-- The alert of `poll_shutdown`, which is written once, and only while the connection is open.
unfoldable pub write_close_notify :
    Noise → SnowyWriteHalf → SnowyShared → SnowyWriteHalf × SnowyShared
write_close_notify noise w shared =
    if shared.close_notify_written || shared.closed then (w, shared) else (
      elim (send_message noise w.nonce close_notify).0 [
        | none ↦ w
        | some ct ↦ record w {
          nonce = (send_message noise w.nonce close_notify).1;
          write_buffer = w.write_buffer ++ tls_record ct;
        }
      ],
      record { closed = true; close_notify_written = true },
    )

-- `poll_shutdown`; what the socket's flushes and its shutdown answer are arguments.
unfoldable pub poll_shutdown :
    Noise
    → Poll
    → Poll
    → Poll
    → SnowyWriteHalf
    → SnowyShared
    → Peer
    → Poll × SnowyWriteHalf × SnowyShared × Peer
poll_shutdown noise first_flush second_flush socket_shutdown w shared p =
    let (result, w1, p1) = poll_flush first_flush w p in
    (elim result [
      | pending ↦ (pending, w1, shared, p1)
      | poll_failed e ↦ (poll_failed e, w1, shared, p1)
      | ready ↦
          let (w2, shared2) = write_close_notify noise w1 shared in
          let (result2, w3, p3) = poll_flush second_flush w2 p1 in
          (elim result2 [
            | pending ↦ (pending, w3, shared2, p3)
            | poll_failed e ↦ (poll_failed e, w3, shared2, p3)
            | ready ↦ (socket_shutdown, w3, shared2, p3)
          ])
    ])
