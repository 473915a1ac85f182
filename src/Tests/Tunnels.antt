-- ===== src/Tests/Tunnels.antt =====
-- Runs of the tunnel's definitions, and its theorems at concrete inputs.
use kanotls.Prelude.{
  ℕ, ◌+◌, ◌-◌, ◌≤◌, ◌<◌, ◌≡◌, refl, List, [], ◌∷◌, ◌++◌, Option, none, some, true, false,
  if◌then◌else◌, ltb, leb, ◌&&◌, arith, min, max, length, take, drop, replicate, ap, length-append,
  take-append,
}
use kanotls.Tunnel.Noise.{Noise, u64_max, send_message, next_nonce}
use kanotls.Tunnel.Writing.{
  SnowyWriteHalf, Prepared, prepared, Accepts, takes, Peer, prepare_data_record,
  prepare_control_record, encrypt_variable_block, target_plaintext, tls_record, block, poll_flush,
  data_record_wire_len, max_data_record_wire_len,
}
use kanotls.Tunnel.Writing
use kanotls.Tunnel.Writing.Sizes.{prepare_data_record_sizes}
use kanotls.Tunnel.Writing.Flushes.{outgoing, poll_flush-outgoing}
use kanotls.Tunnel.Reading.{SnowyReadHalf, Event, arrives, would_block, poll_read}
use kanotls.Tunnel.Plain.Turns.{unread}
use kanotls.Tunnel.Plain.Polls.{Gives, poll_read-Gives}
use kanotls.Tunnel.Delivery.{Sending, prepare_all, payloads, polls, polls-prepare_all, prepare}

-- A cipher that only adds a tag of the nonce.
abbrev plain_write : ℕ → List ℕ → Option (List ℕ)
plain_write n payload =
    if ltb n u64_max && leb (length payload + 16) 65535
    then some (payload ++ replicate 16 n)
    else none

abbrev plain_read : ℕ → List ℕ → Option (List ℕ)
plain_read n message = some (take (length message - 16) message)

plain_encrypts :
    (n : ℕ) (payload : List ℕ)
    → n < u64_max
    → length payload + 16 ≤ 65535
    → (message : List ℕ) × (plain_write n payload ≡ some message)
plain_encrypts n payload left short = (payload ++ replicate 16 n, ground arith)

plain_lem :
    (n : ℕ) (payload message : List ℕ)
    → plain_write n payload ≡ some message
    → message ≡ payload ++ replicate 16 n
plain_lem n payload message e = ground arith

plain_tagged :
    (n : ℕ) (payload message : List ℕ)
    → plain_write n payload ≡ some message
    → length message ≡ length payload + 16
plain_tagged n payload message e =
    rw (plain_lem n payload message e) (omega (arith, length-append {0} payload (replicate 16 n)))

plain_decrypts :
    (n : ℕ) (payload message : List ℕ)
    → plain_write n payload ≡ some message
    → plain_read n message ≡ some payload
plain_decrypts n payload message e = rw (plain_lem n payload message e) (
    ap some (
      take-append (length (payload ++ replicate 16 n) - 16) payload (replicate 16 n)
        (omega (arith, length-append {0} payload (replicate 16 n)))))

abbrev plain_noise : Noise
plain_noise = record {
  write_message = plain_write;
  read_message = plain_read;
  encrypts = plain_encrypts;
  tagged = plain_tagged;
  decrypts = plain_decrypts;
}

abbrev new_write_half : SnowyWriteHalf
new_write_half = record { nonce = 0; write_buffer = []; write_offset = 0; control_frame_count = 0 }

abbrev reading : List Event → SnowyReadHalf
reading es = record {
  nonce = 0;
  read_buf_inner = [];
  read_offset = 0;
  tls_rx_buf = [];
  tls_rx_offset = 0;
  closed = false;
  close_notify_written = false;
  filled = [];
  remaining = 0;
  progress = false;
  socket = es;
}

prepare_data_record_sizes_example :
    (w' : SnowyWriteHalf) × (bytes : List ℕ) × (prepare_data_record plain_noise new_write_half
        (1 ∷ 2 ∷ 3 ∷ [])
        100
      ≡ prepared w')
    × (w'.write_buffer ≡ [] ++ bytes)
    × (length bytes ≡ min (max 100 (data_record_wire_len 3)) max_data_record_wire_len)
    × (w'.nonce ≡ 0 + 1)
prepare_data_record_sizes_example =
    prepare_data_record_sizes plain_noise new_write_half (1 ∷ 2 ∷ 3 ∷ []) 100 (omega arith)
      (omega arith)

abbrev two_sendings : List Sending
two_sendings =
    record { is_control = true; payload = 7 ∷ 8 ∷ []; target_wire_len = 30 }
    ∷ record { is_control = false; payload = 9 ∷ []; target_wire_len = 0 }
    ∷ []

-- The two records, each of five bytes of header, two of length, the payload, its padding, the content
-- type and the tag.
abbrev two_records : List ℕ
two_records =
    (23 ∷ 3 ∷ 3 ∷ 0 ∷ 25 ∷ 0 ∷ 2 ∷ 7 ∷ 8 ∷ 0 ∷ 0 ∷ 0 ∷ 0 ∷ 23 ∷ [])
    ++ replicate 16 0
    ++ (23 ∷ 3 ∷ 3 ∷ 0 ∷ 20 ∷ 0 ∷ 1 ∷ 9 ∷ 23 ∷ [])
    ++ replicate 16 1

abbrev after_two : SnowyWriteHalf
after_two = record {
  nonce = 2;
  write_buffer = two_records;
  write_offset = 0;
  control_frame_count = 1;
}

two_prepared : prepare_all plain_noise new_write_half two_sendings ≡ some after_two
unfolding prepare_all prepare prepare_control_record prepare_data_record encrypt_variable_block
    target_plaintext tls_record block send_message next_nonce
two_prepared = refl

-- The socket takes 40 bytes of its first write and the rest of the second.
abbrev a_peer : Peer
a_peer = record { answers = takes 40 ∷ takes 1000 ∷ []; sent = [] }

two_sent : poll_flush Writing.ready after_two a_peer ≡ (
  Writing.ready,
  record after_two { write_buffer = [] },
  record { answers = []; sent = two_records },
)
unfolding poll_flush
two_sent = refl

-- The bytes come in three reads, one of which the socket is not ready for.
abbrev three_reads : SnowyReadHalf
three_reads = reading (
    arrives (take 3 two_records)
    ∷ would_block
    ∷ arrives (take 31 (drop 3 two_records))
    ∷ arrives (drop 34 two_records)
    ∷ [])

three_polls : (polls plain_noise (1 ∷ 4 ∷ 4 ∷ 4 ∷ []) three_reads).0 ≡ 7 ∷ 8 ∷ 9 ∷ []
unfolding polls poll_read
three_polls = refl

polls-prepare_all_example :
    (polls plain_noise (1 ∷ 4 ∷ 4 ∷ 4 ∷ []) three_reads).0
      ++ unread plain_noise (polls plain_noise (1 ∷ 4 ∷ 4 ∷ 4 ∷ []) three_reads).1
    ≡ payloads two_sendings
polls-prepare_all_example =
    polls-prepare_all plain_noise two_sendings new_write_half after_two three_reads Writing.ready
      a_peer (1 ∷ 4 ∷ 4 ∷ 4 ∷ []) (omega arith) (omega arith)
      (record {
        buffer = refl;
        offset = refl;
        nonce = refl;
        is_open = refl;
        inner_empty = refl;
        inner_offset = refl;
        rx_empty = refl;
        rx_offset = refl;
      })
      refl two_prepared (ap (λ t. t.0) two_sent) (rw two_sent refl) (omega arith)

poll_read-Gives_example :
    Gives plain_noise 4 (unread plain_noise three_reads) (poll_read plain_noise 4 three_reads)
poll_read-Gives_example =
    poll_read-Gives plain_noise 4 three_reads (omega arith)
      (record { inner_fits = omega arith; rx_fits = omega arith })

poll_flush-outgoing_example :
    outgoing
      (poll_flush Writing.ready after_two a_peer).1
      (poll_flush Writing.ready after_two a_peer).2.sent
    ≡ outgoing after_two []
poll_flush-outgoing_example = poll_flush-outgoing Writing.ready after_two a_peer
