-- ===== src/Proto/Uot.antt =====
-- crates/proto/src/uot.rs: UDP packets inside a stream, and the SOCKS5 header of UDP datagrams.
pub mod RoundTrip
use kanotls.Prelude.{
  ℕ, ◌+◌, ◌-◌, List, [], ◌∷◌, ◌++◌, Option, none, some, Result, ok, err, Bool, true, false,
  if◌then◌else◌, ltb, ◌==◌, ◌||◌, not, length, get_or, take, drop,
}
use kanotls.Prelude.Bytes.{as_u16, u16_to_be_bytes, u16_from_be_bytes}
use kanotls.Proto.Addr.{SocketAddr, v4, v6, encoded_addr}

-- "udp packet too large: {len} > {max}"
pub data UdpError : Type 0 where
  packet_too_large : ℕ → ℕ → UdpError

unfoldable pub encode_udp_packet : List ℕ → SocketAddr → ℕ → Result UdpError (List ℕ)
encode_udp_packet payload addr max_payload =
    let max_data_len = max_payload - (length (encoded_addr addr) + 2) in
    if ltb max_data_len (length payload)
    then err (packet_too_large (length payload) max_data_len)
    else ok (encoded_addr addr ++ (u16_to_be_bytes (as_u16 (length payload)) ++ payload))

unfoldable pub encode_socks5_udp : List ℕ → SocketAddr → List ℕ
encode_socks5_udp payload addr = 0 ∷ 0 ∷ 0 ∷ (encoded_addr addr ++ payload)

-- The four octets and the port that stand at `at`; a port 0 is refused.
abbrev pub read_v4 : ℕ → List ℕ → Option SocketAddr
read_v4 at d =
    let port = u16_from_be_bytes (get_or d (at + 4) 0) (get_or d (at + 5) 0) in
    if port == 0
    then none
    else some
        (v4 (get_or d at 0) (get_or d (at + 1) 0) (get_or d (at + 2) 0) (get_or d (at + 3) 0) port)

abbrev pub read_v6 : ℕ → List ℕ → Option SocketAddr
read_v6 at d =
    let port = u16_from_be_bytes (get_or d (at + 16) 0) (get_or d (at + 17) 0) in
    if port == 0 then none else some (v6 (take 16 (drop at d)) port 0 0)

abbrev pub with_rest : ℕ → List ℕ → Option SocketAddr → Option (SocketAddr × List ℕ)
with_rest at d none = none
with_rest at d (some addr) = some (addr, drop at d)

-- An address type of 3, a domain, is refused as every other one is.
unfoldable pub decode_socks5_udp : List ℕ → Option (SocketAddr × List ℕ)
decode_socks5_udp d =
    if ltb (length d) 4
      || (not (get_or d 0 0 == 0) || (not (get_or d 1 0 == 0) || not (get_or d 2 0 == 0)))
    then none
    else if get_or d 3 0 == 1
    then (if ltb (length d) 10 then none else with_rest 10 d (read_v4 4 d))
    else if get_or d 3 0 == 4
    then (if ltb (length d) 22 then none else with_rest 22 d (read_v6 4 d))
    else none

-- The payload behind an address that ends at `offset`.
abbrev pub read_payload : ℕ → List ℕ → Option SocketAddr → Option (SocketAddr × List ℕ)
read_payload offset d none = none
read_payload offset d (some addr) =
    if ltb (length d) (offset + 2)
    then none
    else let n = u16_from_be_bytes (get_or d offset 0) (get_or d (offset + 1) 0) in
      if ltb (length d) (offset + 2 + n) then none else some (addr, take n (drop (offset + 2) d))

unfoldable pub decode_udp_packet : List ℕ → Option (SocketAddr × List ℕ)
decode_udp_packet d =
    if length d == 0
    then none
    else if get_or d 0 0 == 1
    then (if ltb (length d) 8 then none else read_payload 7 d (read_v4 1 d))
    else if get_or d 0 0 == 4
    then (if ltb (length d) 20 then none else read_payload 19 d (read_v6 1 d))
    else none
