-- ===== src/Tunnel/Delivery.antt =====
-- From the writing half of one side to the reading half of the other: the payloads that are prepared
-- are the bytes that are read.
use kanotls.Prelude.{
  ℕ, ◌+◌, ◌≤◌, ◌<◌, ◌≡◌, refl, sym, ap, ◌∙◌, inl, inr, List, [], ◌∷◌, ◌++◌, Option, none, some,
  Bool, Bool-cases, false, if◌then◌else◌, min, arith, length, drop, All, append_assoc, append-nil,
}
use kanotls.Tunnel.Noise.{Noise, next_nonce, u64_max}
use kanotls.Tunnel.Writing.{
  SnowyWriteHalf, Prepared, prepared, encrypt_failed, panicked, block, tls_record, target_plaintext,
  prepare_data_record, prepare_control_record, block_data_capacity, Peer, Poll, poll_flush,
}
use kanotls.Tunnel.Writing
use kanotls.Tunnel.Writing.Sizes.{target_fits, encrypts_once}
use kanotls.Tunnel.Writing.Flushes.{outgoing, poll_flush_ready}
use kanotls.Tunnel.Reading.{SnowyReadHalf, coming, poll_read}
use kanotls.Tunnel.Plain.{stream_of, stream_of-nil}
use kanotls.Tunnel.Plain.Turns.{unread}
use kanotls.Tunnel.Plain.Polls.{IsResting, poll_read-Gives}
use kanotls.Tunnel.Plain.Records.{stream_of-tls_record}

-- A payload to be sent, in a control record or in a data record, of a size.
pub record Sending : Type 0 where
  pub is_control : Bool
  pub payload : List ℕ
  pub target_wire_len : ℕ

unfoldable pub prepare : Noise → SnowyWriteHalf → Sending → Prepared
prepare noise w s =
    if s.is_control
    then prepare_control_record noise w s.payload s.target_wire_len
    else prepare_data_record noise w s.payload s.target_wire_len

unfoldable pub prepare_all : Noise → SnowyWriteHalf → List Sending → Option SnowyWriteHalf
prepare_all noise w [] = some w
prepare_all noise w (s ∷ ss) = elim (prepare noise w s) [
  | prepared w' ↦ prepare_all noise w' ss
  | encrypt_failed w' ↦ none
  | panicked ↦ none
]

abbrev pub payloads : List Sending → List ℕ
payloads [] = []
payloads (s ∷ ss) = s.payload ++ payloads ss

-- The bytes that calls of `poll_read` with buffers of these sizes hand over, and the half after them.
unfoldable pub polls : Noise → List ℕ → SnowyReadHalf → List ℕ × SnowyReadHalf
polls noise [] r = ([], r)
polls noise (capacity ∷ cs) r =
    let one = (poll_read noise capacity r).1 in
    let rest = polls noise cs one in (one.filled ++ rest.0, rest.1)

polls-unread :
    (noise : Noise) (cs : List ℕ) (r : SnowyReadHalf)
    → All (λ c. 0 < c) cs
    → IsResting r
    → (polls noise cs r).0 ++ unread noise (polls noise cs r).1 ≡ unread noise r
unfolding polls
polls-unread noise [] r some_room h = refl
polls-unread noise (c ∷ cs) r some_room h =
    let one = (poll_read noise c r).1 in
    let (fits, same, ends) = poll_read-Gives noise c r some_room.0 h in
    let resting : IsResting one = record { inner_fits = fits.inner_fits; rx_fits = fits.rx_fits } in
    append_assoc one.filled (polls noise cs one).0 (unread noise (polls noise cs one).1)
    ∙ ap (λ t. one.filled ++ t) (polls-unread noise cs one some_room.1 resting)
    ∙ same

-- The records `bytes` go behind the buffer, and are read as `payload`.
record Extends (noise : Noise) (w w' : SnowyWriteHalf) (payload bytes : List ℕ) : Type 0 where
  buffered : w'.write_buffer ≡ w.write_buffer ++ bytes
  offset : w'.write_offset ≡ w.write_offset
  reads :
      (more : List ℕ)
      → stream_of noise w.nonce (bytes ++ more) ≡ payload ++ stream_of noise w'.nonce more

prepare_stream :
    (noise : Noise) (w : SnowyWriteHalf) (s : Sending)
    → length s.payload ≤ block_data_capacity
    → w.nonce < u64_max
    → (w' : SnowyWriteHalf) × (bytes : List ℕ) × (prepare noise w s ≡ prepared w')
      × (w'.nonce ≡ next_nonce w.nonce)
      × Extends noise w w' s.payload bytes
unfolding prepare prepare_control_record prepare_data_record
prepare_stream noise w s small left =
    let target = target_plaintext s.payload s.target_wire_len in
    let (low, high) = target_fits s.payload s.target_wire_len small in
    elim (Bool-cases s.is_control) [
      | inl control ↦
          let w0 : SnowyWriteHalf = record w {
            control_frame_count = min (w.control_frame_count + 1) u64_max;
          } in
          let (ct, sealed, size, runs) =
            encrypts_once noise w0 s.payload s.target_wire_len small left in
          (
            record w0 {
              nonce = next_nonce w.nonce;
              write_buffer = w.write_buffer ++ tls_record ct;
            },
            tls_record ct,
            rw (prepare, control) runs,
            refl,
            record {
              buffered = refl;
              offset = refl;
              reads = λ more.
                  stream_of-tls_record noise w.nonce target s.payload ct more small (omega arith)
                    sealed;
            },
          )
      | inr bulk ↦
          let (ct, sealed, size, runs) =
            encrypts_once noise w s.payload s.target_wire_len small left in
          (
            record w { nonce = next_nonce w.nonce; write_buffer = w.write_buffer ++ tls_record ct },
            tls_record ct,
            rw (prepare, bulk) runs,
            refl,
            record {
              buffered = refl;
              offset = refl;
              reads = λ more.
                  stream_of-tls_record noise w.nonce target s.payload ct more small (omega arith)
                    sealed;
            },
          )
    ]

-- A payload that fits in a record.
abbrev pub IsSendable : Sending → Type 0
IsSendable s = length s.payload ≤ block_data_capacity

prepare_all_stream :
    (noise : Noise) (ss : List Sending) (w : SnowyWriteHalf)
    → All IsSendable ss
    → w.nonce + length ss ≤ u64_max
    → (w' : SnowyWriteHalf) × (bytes : List ℕ) × (prepare_all noise w ss ≡ some w')
      × Extends noise w w' (payloads ss) bytes
unfolding prepare_all next_nonce
prepare_all_stream noise [] w fit left = (
  w,
  [],
  refl,
  record { buffered = sym (append-nil w.write_buffer); offset = refl; reads = λ more. refl },
)
prepare_all_stream noise (s ∷ ss) w fit left =
    let (w1, front, one, moved, x) = prepare_stream noise w s fit.0 (omega arith) in
    let (w2, back, all, y) = prepare_all_stream noise ss w1 fit.1 (omega arith) in
    (
      w2,
      front ++ back,
      rw (prepare_all, one) all,
      record {
        buffered =
            y.buffered ∙ ap (λ t. t ++ back) x.buffered ∙ append_assoc w.write_buffer front back;
        offset = y.offset ∙ x.offset;
        reads = λ more.
            ap (stream_of noise w.nonce) (append_assoc front back more)
            ∙ x.reads (back ++ more)
            ∙ ap (λ t. s.payload ++ t) (y.reads more)
            ∙ sym (append_assoc s.payload (payloads ss) (stream_of noise w2.nonce more));
      },
    )

-- A half that has written nothing yet, and one that has read nothing.
pub record IsFresh (w : SnowyWriteHalf) (r : SnowyReadHalf) : Type 0 where
  pub buffer : w.write_buffer ≡ []
  pub offset : w.write_offset ≡ 0
  pub nonce : r.nonce ≡ w.nonce
  pub is_open : r.closed ≡ false
  pub inner_empty : r.read_buf_inner ≡ []
  pub inner_offset : r.read_offset ≡ 0
  pub rx_empty : r.tls_rx_buf ≡ []
  pub rx_offset : r.tls_rx_offset ≡ 0

fresh-unread :
    (noise : Noise) (w : SnowyWriteHalf) (r : SnowyReadHalf)
    → IsFresh w r
    → unread noise r ≡ stream_of noise w.nonce (coming r.socket)
fresh-unread noise w r f =
    rw (f.is_open, f.inner_offset, f.inner_empty, f.rx_offset, f.rx_empty, f.nonce) refl

-- Payloads that fit are prepared, in control and data records of any sizes, while nonces last. When
-- one flush has sent the buffer, the other side's calls of `poll_read` hand over these payloads in
-- order, up to what is still to come, however the bytes are cut on their way and whatever room the
-- calls have.
pub polls-prepare_all :
    (noise : Noise) (ss : List Sending) (w w' : SnowyWriteHalf) (r : SnowyReadHalf)
    (socket_flush : Poll) (p : Peer) (capacities : List ℕ)
    → All IsSendable ss
    → w.nonce + length ss ≤ u64_max
    → IsFresh w r
    → p.sent ≡ []
    → prepare_all noise w ss ≡ some w'
    → (poll_flush socket_flush w' p).0 ≡ Writing.ready
    → coming r.socket ≡ (poll_flush socket_flush w' p).2.sent
    → All (λ c. 0 < c) capacities
    → (polls noise capacities r).0 ++ unread noise (polls noise capacities r).1 ≡ payloads ss
polls-prepare_all noise ss w w' r socket_flush p capacities fit left f nothing runs flushed arrives
      rooms =
    let (w2, bytes, runs2, x) = prepare_all_stream noise ss w fit left in
    let same : w' ≡ w2 = cc in
    let resting : IsResting r = record {
      inner_fits = omega (arith, f.inner_offset);
      rx_fits = omega (arith, f.rx_offset);
    } in
    let outgoing_bytes : outgoing w' p.sent ≡ bytes =
      ap (outgoing w') nothing
      ∙ ap (λ v. drop v.write_offset v.write_buffer) same
      ∙ ap (λ k. drop k w2.write_buffer) (x.offset ∙ f.offset)
      ∙ x.buffered
      ∙ ap (λ t. t ++ bytes) f.buffer in
    let sent : coming r.socket ≡ bytes =
      arrives ∙ poll_flush_ready socket_flush w' p flushed ∙ outgoing_bytes in
    polls-unread noise capacities r rooms resting
    ∙ fresh-unread noise w r f
    ∙ ap (stream_of noise w.nonce) (sent ∙ sym (append-nil bytes))
    ∙ x.reads []
    ∙ ap (λ t. payloads ss ++ t) (stream_of-nil noise w2.nonce)
    ∙ append-nil (payloads ss)
