-- ===== src/Tunnel/Reading.antt =====
-- crates/tunnel/src/common.rs, the reading half of `SnowyStream`: `poll_read`, from what the socket
-- gives to the bytes in the caller's buffer.
use kanotls.Prelude.{
  ℕ, zero, suc, ◌+◌, ◌-◌, ◌*◌, List, [], ◌∷◌, ◌++◌, none, some, Bool, true, false, if◌then◌else◌,
  ltb, leb, ◌==◌, ◌&&◌, ◌||◌, min, length, get_or, take, drop,
}
use kanotls.Prelude.Bytes.{u16_from_be_bytes}
use kanotls.ControlSize.{block_len_prefix_size}
use kanotls.Tunnel.Noise.{Noise, receive_message}
use kanotls.Tunnel.Writing.{tls_record_header_len, inner_content_type_len, inner_content_type_alert}

abbrev pub max_tls_record_payload_len : ℕ
max_tls_record_payload_len = 16384 + 256

pub data Parsed : Type 0 where
  too_large : Parsed
  incomplete : Parsed
  whole : ℕ → ℕ → Parsed

-- The whole length and the type of the record at the front.
unfoldable pub parse_tls_record : List ℕ → Parsed
parse_tls_record buf =
    let payload_len = u16_from_be_bytes (get_or buf 3 0) (get_or buf 4 0) in
    if ltb (length buf) tls_record_header_len
    then incomplete
    else if ltb max_tls_record_payload_len payload_len
    then too_large
    else if ltb (length buf) (tls_record_header_len + payload_len)
    then incomplete
    else whole (tls_record_header_len + payload_len) (get_or buf 0 0)

-- What the socket gives to one read. No bytes is its end, at which it stays; when no event is left, it
-- is not ready.
pub data Event : Type 0 where
  arrives : List ℕ → Event
  would_block : Event
  fails : Event

-- The reading half, with the `closed` and `close_notify_written` that it shares, the buffer of the
-- call in progress (what is in it, and the room that is left), and the socket.
pub record SnowyReadHalf : Type 0 where
  pub nonce : ℕ
  pub read_buf_inner : List ℕ
  pub read_offset : ℕ
  pub tls_rx_buf : List ℕ
  pub tls_rx_offset : ℕ
  pub closed : Bool
  pub close_notify_written : Bool
  pub filled : List ℕ
  pub remaining : ℕ
  pub progress : Bool
  pub socket : List Event

pub data Status : Type 0 where
  ready : Status
  invalid_data : Status
  unexpected_eof : Status
  read_failed : Status
  pending : Status
  out_of_fuel : Status

-- A step of `poll_read` goes on at the outer loop or at the inner one, or returns.
pub data Turn : Type 0 where
  outer : SnowyReadHalf → Turn
  inner : SnowyReadHalf → Turn
  returns : Status → SnowyReadHalf → Turn

-- What is still unread goes to the caller, as far as there is room.
abbrev pub copied : SnowyReadHalf → SnowyReadHalf
copied r =
    let n = min (length r.read_buf_inner - r.read_offset) r.remaining in
    let whole_read = leb (length r.read_buf_inner) (r.read_offset + n) in
    record r {
      filled = r.filled ++ take n (drop r.read_offset r.read_buf_inner);
      remaining = r.remaining - n;
      progress = true;
      read_offset = if whole_read then 0 else r.read_offset + n;
      read_buf_inner = if whole_read then [] else r.read_buf_inner;
    }

-- The front of the outer loop.
unfoldable pub at_outer : SnowyReadHalf → Turn
at_outer r =
    if ltb r.read_offset (length r.read_buf_inner)
    then (if (copied r).remaining == 0 then returns ready (copied r) else inner (copied r))
    else inner r

-- The record that ends at `frame_end` is done with.
abbrev pub past : ℕ → SnowyReadHalf → SnowyReadHalf
past frame_end r = record r {
  tls_rx_offset = if frame_end == length r.tls_rx_buf then 0 else frame_end;
  tls_rx_buf = if frame_end == length r.tls_rx_buf then [] else r.tls_rx_buf;
}

-- A close_notify or a fatal alert in a record of application data.
unfoldable pub is_alert : List ℕ → Bool
is_alert p =
    length p == 3
    && (get_or p 2 0 == inner_content_type_alert
        && (get_or p 0 0 == 0x01 && get_or p 1 0 == 0x00
            || get_or p 0 0 == 0x02 && get_or p 1 0 == 0x14))

-- The part of a plaintext that is a stream's bytes.
unfoldable pub data_range : List ℕ → List ℕ
data_range p =
    if leb (block_len_prefix_size + inner_content_type_len) (length p)
    then take
        (min (u16_from_be_bytes (get_or p 0 0) (get_or p 1 0))
          (length p - block_len_prefix_size - inner_content_type_len))
        (drop block_len_prefix_size p)
    else p

-- The bytes go to the caller if nothing older waits and there is room, and what has no room waits.
unfoldable pub hand_over : List ℕ → SnowyReadHalf → SnowyReadHalf
hand_over bytes r =
    let n = min (length bytes) r.remaining in
    if length bytes == 0
    then r
    else if leb (length r.read_buf_inner) r.read_offset && ltb 0 r.remaining
    then record r {
      filled = r.filled ++ take n bytes;
      remaining = r.remaining - n;
      read_buf_inner =
          if ltb n (length bytes) then r.read_buf_inner ++ drop n bytes else r.read_buf_inner;
      progress = true;
    }
    else record r { read_buf_inner = r.read_buf_inner ++ bytes }

abbrev pub close : SnowyReadHalf → SnowyReadHalf
close r = record r { closed = true }

-- A record that was decrypted.
unfoldable pub on_plaintext : ℕ → List ℕ → SnowyReadHalf → Turn
on_plaintext frame_end p r =
    if is_alert p
    then returns ready (close (past frame_end r))
    else if ltb 0 (length p)
    then outer (past frame_end (hand_over (data_range p) r))
    else inner (past frame_end (hand_over (data_range p) r))

-- A record of `total` bytes and of a type, at the offset.
unfoldable pub on_record : Noise → ℕ → ℕ → SnowyReadHalf → Turn
on_record noise total frame_type r =
    let frame_end = r.tls_rx_offset + total in
    let received =
      receive_message noise r.nonce
        (drop tls_record_header_len (take total (drop r.tls_rx_offset r.tls_rx_buf))) in
    if frame_type == 0x17 && ltb tls_record_header_len total
    then (elim received.0 [
      | none ↦ returns invalid_data (record r { closed = true; close_notify_written = true })
      | some p ↦ on_plaintext frame_end p (record r { nonce = received.1 })
    ])
    else if frame_type == 0x15
    then returns ready (close r)
    else inner (past frame_end r)

-- The read from the socket, when no whole record is left.
unfoldable pub on_socket : SnowyReadHalf → List Event → Turn
on_socket r [] = returns pending r
on_socket r (would_block ∷ es) = returns pending (record r { socket = es })
on_socket r (fails ∷ es) = returns read_failed (record r { socket = es })
on_socket r (arrives [] ∷ es) =
    if ltb r.tls_rx_offset (length r.tls_rx_buf)
    then returns unexpected_eof r
    else returns ready (close r)
on_socket r (arrives (b ∷ bs) ∷ es) = outer (record r {
  tls_rx_buf =
      (if ltb 0 r.tls_rx_offset then drop r.tls_rx_offset r.tls_rx_buf else r.tls_rx_buf) ++ b ∷ bs;
  tls_rx_offset = 0;
  socket = es;
})

-- One round of the inner loop, with what follows it when no record is left.
unfoldable pub at_inner : Noise → SnowyReadHalf → Turn
at_inner noise r = elim (parse_tls_record (drop r.tls_rx_offset r.tls_rx_buf)) [
  | too_large ↦ returns invalid_data r
  | whole total frame_type ↦ on_record noise total frame_type r
  | incomplete ↦ if r.progress then returns ready r else on_socket r r.socket
]

unfoldable pub run : Noise → ℕ → Turn → Status × SnowyReadHalf
run noise zero (outer r) = (out_of_fuel, r)
run noise zero (inner r) = (out_of_fuel, r)
run noise zero (returns st r) = (st, r)
run noise (suc fuel) (outer r) = run noise fuel (at_outer r)
run noise (suc fuel) (inner r) = run noise fuel (at_inner noise r)
run noise (suc fuel) (returns st r) = (st, r)

-- The bytes that the socket gives before its end.
abbrev pub coming : List Event → List ℕ
coming [] = []
coming (arrives [] ∷ es) = []
coming (arrives (b ∷ bs) ∷ es) = b ∷ bs ++ coming es
coming (would_block ∷ es) = coming es
coming (fails ∷ es) = coming es

-- Each record takes five bytes at least, and each read an event.
abbrev pub fuel_for : SnowyReadHalf → ℕ
fuel_for r =
    2 * (length (drop r.tls_rx_offset r.tls_rx_buf) + length (coming r.socket) + length r.socket)
    + 4

-- `poll_read` with a buffer of so many bytes.
unfoldable pub poll_read : Noise → ℕ → SnowyReadHalf → Status × SnowyReadHalf
unfolding run at_outer at_inner on_record on_plaintext on_socket hand_over data_range is_alert
    parse_tls_record receive_message
poll_read noise capacity r =
    let start = record r { filled = []; remaining = capacity; progress = false } in
    if r.closed then (ready, start) else run noise (fuel_for start) (outer start)
