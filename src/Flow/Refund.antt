-- ===== src/Flow/Refund.antt =====
-- What the receiving side gives back, as the peer reads it, and what it still counts are what arrived.
use kanotls.Prelude.{
  ℕ, ◌+◌, ◌<◌, ◌*◌, ◌≡◌, List, [], ◌∷◌, Option, none, some, Bool, true, arith, All, append-nil,
}
use kanotls.Frame.{decode}
use kanotls.Frame.Padding.{encode_padding_window_update_sized, decode_padding_window_update}
use kanotls.Frame.Padding.Payloads.{window_update_received}
use kanotls.Flow.{new_limits, h2_window_update_threshold}
use kanotls.Flow.Receive.{note_conn_received, note_consumed, padding_window_update_wire}

-- The credit that a peer finds in a packet.
pub credit_in : List ℕ → ℕ
unfolding decode decode_padding_window_update
credit_in packet = elim (decode packet).0 [
  | none ↦ 0
  | some f ↦ elim (decode_padding_window_update f.payload) [ none ↦ 0 | some n ↦ n ]
]

abbrev pub credit_sent : Option (List ℕ) → ℕ
credit_sent none = 0
credit_sent (some packet) = credit_in packet

credit_in-encode :
    (sid increment : ℕ)
    → sid < 4294967296
    → increment < 4294967296
    → credit_in (encode_padding_window_update_sized sid increment padding_window_update_wire)
      ≡ increment
unfolding credit_in
credit_in-encode sid increment hs h =
    let (f, e, _, _, w, _) =
      window_update_received sid increment padding_window_update_wire [] hs h (omega arith) in
    ground (
      arith,
      append-nil (encode_padding_window_update_sized sid increment padding_window_update_wire),
      e,
      w,
    )

-- Frames that arrive one after the other: their lengths, and whether the queue takes a packet.
pub receive_all : ℕ → ℕ → List (ℕ × Bool) → ℕ × ℕ
unfolding note_conn_received
receive_all threshold consumed [] = (0, consumed)
receive_all threshold consumed ((n, takes) ∷ rest) =
    let next = note_conn_received threshold consumed n takes in
    let later = receive_all threshold next.1 rest in (credit_sent next.0 + later.0, later.1)

pub consume_all : ℕ → ℕ → ℕ → List (ℕ × Bool) → ℕ × ℕ
unfolding note_consumed
consume_all threshold sid consumed [] = (0, consumed)
consume_all threshold sid consumed ((n, takes) ∷ rest) =
    let next = note_consumed threshold sid consumed n takes in
    let later = consume_all threshold sid next.1 rest in (credit_sent next.0 + later.0, later.1)

abbrev pub bytes_in : List (ℕ × Bool) → ℕ
bytes_in [] = 0
bytes_in ((n, takes) ∷ rest) = n + bytes_in rest

note_conn_received-credit :
    (threshold consumed n : ℕ) (takes : Bool)
    → consumed + n < 4294967296
    → credit_sent (note_conn_received threshold consumed n takes).0
        + (note_conn_received threshold consumed n takes).1
      ≡ consumed + n
unfolding note_conn_received
note_conn_received-credit threshold consumed n takes h =
    ground (arith, credit_in-encode 0 (consumed + n) (omega arith) h)

note_consumed-credit :
    (threshold sid consumed n : ℕ) (takes : Bool)
    → sid < 4294967296
    → consumed + n < 4294967296
    → credit_sent (note_consumed threshold sid consumed n takes).0
        + (note_consumed threshold sid consumed n takes).1
      ≡ consumed + n
unfolding note_consumed
note_consumed-credit threshold sid consumed n takes hs h =
    ground (arith, credit_in-encode sid (consumed + n) hs h)

-- Below 2 ^ 32 bytes, the credit that the peer reads out of the WINDOW_UPDATE packets of the connection
-- and the count that is left add up to the bytes that arrived, whichever packets the queue refuses.
pub receive_all-credit :
    (threshold consumed : ℕ) (rs : List (ℕ × Bool))
    → consumed + bytes_in rs < 4294967296
    → (receive_all threshold consumed rs).0 + (receive_all threshold consumed rs).1
      ≡ consumed + bytes_in rs
unfolding receive_all
receive_all-credit threshold consumed [] h = omega arith
receive_all-credit threshold consumed ((n, takes) ∷ rs) h =
    let now = note_conn_received-credit threshold consumed n takes (omega arith) in
    omega (
      arith,
      now,
      receive_all-credit threshold (note_conn_received threshold consumed n takes).1 rs
          (omega (arith, now)),
    )

-- Below 2 ^ 32 bytes, the credit that the peer reads out of a stream's WINDOW_UPDATE packets and
-- the count that is left add up to the bytes that the stream's reader consumed, whichever packets
-- the queue refuses.
pub consume_all-credit :
    (threshold sid consumed : ℕ) (rs : List (ℕ × Bool))
    → sid < 4294967296
    → consumed + bytes_in rs < 4294967296
    → (consume_all threshold sid consumed rs).0 + (consume_all threshold sid consumed rs).1
      ≡ consumed + bytes_in rs
unfolding consume_all
consume_all-credit threshold sid consumed [] hs h = omega arith
consume_all-credit threshold sid consumed ((n, takes) ∷ rs) hs h =
    let now = note_consumed-credit threshold sid consumed n takes hs (omega arith) in
    omega (
      arith,
      now,
      consume_all-credit threshold sid (note_consumed threshold sid consumed n takes).1 rs hs
          (omega (arith, now)),
    )

abbrev pub IsTaken : ℕ × Bool → Type 0
IsTaken (n, takes) = takes ≡ true

receive_all-count :
    (threshold consumed : ℕ) (rs : List (ℕ × Bool))
    → All IsTaken rs
    → consumed < threshold
    → (receive_all threshold consumed rs).1 < threshold
unfolding receive_all note_conn_received
receive_all-count threshold consumed [] t h = h
receive_all-count threshold consumed ((n, takes) ∷ rs) t h =
    receive_all-count threshold (note_conn_received threshold consumed n takes).1 rs t.1
      (ground arith)

-- With the limits of a session, as long as the queue takes the packets and fewer than 2 ^ 32 bytes have
-- arrived, the peer has been given back all of them but less than the threshold, which is an eighth of
-- the connection's window.
pub receive_all_prompt :
    (stream_override : ℕ) (rs : List (ℕ × Bool))
    → All IsTaken rs
    → bytes_in rs < 4294967296
    → (bytes_in rs
        < (receive_all (new_limits 0 stream_override).conn_wu_threshold 0 rs).0
          + (new_limits 0 stream_override).conn_wu_threshold)
      × ((new_limits 0 stream_override).conn_wu_threshold * 8
          ≡ (new_limits 0 stream_override).conn_window)
unfolding new_limits
receive_all_prompt stream_override rs t h = (
  omega (
    arith,
    receive_all-credit (h2_window_update_threshold 0) 0 rs (omega arith),
    receive_all-count (h2_window_update_threshold 0) 0 rs t (omega arith),
  ),
  omega arith,
)
