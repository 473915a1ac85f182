-- ===== src/Proto/Uot/RoundTrip.antt =====
-- What the peer reads out of the packets.
use kanotls.Prelude.{
  ℕ, ◌<◌, ◌≡◌, refl, List, ◌++◌, none, some, ok, if◌then◌else◌, ◌==◌, length, arith, length-append,
  take-append,
}
use kanotls.Proto.Addr.{SocketAddr, v4, v6, IsAddr, plain, port_of, ForEach, by_name}
use kanotls.Proto.Uot.{encode_udp_packet, decode_udp_packet, encode_socks5_udp, decode_socks5_udp}

-- Whatever follows a packet whose payload fits the length field, its payload is read back with its
-- address; if the port is 0, the packet is refused.
pub decode-encode_udp_packet :
    (payload packet rest : List ℕ) (addr : SocketAddr) (max_payload : ℕ)
    → IsAddr addr
    → length payload < 65536
    → encode_udp_packet payload addr max_payload ≡ ok packet
    → decode_udp_packet (packet ++ rest)
      ≡ (if port_of addr == 0 then none else some (plain addr, payload))
unfolding encode_udp_packet decode_udp_packet ForEach
decode-encode_udp_packet payload packet rest (v4 a b c d port) max_payload v h e =
    ground (arith, length-append payload rest, take-append (length payload) payload rest refl)
decode-encode_udp_packet payload packet rest (v6 octets port flow scope) max_payload (v, l, p) h e =
    by_name 16
      (λ xs.
        encode_udp_packet payload (v6 xs port flow scope) max_payload ≡ ok packet
        → decode_udp_packet (packet ++ rest)
          ≡ (if port == 0 then none else some (v6 xs port 0 0, payload)))
      (λ a b c d f g i j k m n o q r s t e'.
        ground (arith, length-append payload rest, take-append (length payload) payload rest refl))
      octets l e

-- A datagram's payload is read back with its address; if the port is 0, the datagram is refused.
pub decode-encode_socks5_udp :
    (payload : List ℕ) (addr : SocketAddr)
    → IsAddr addr
    → decode_socks5_udp (encode_socks5_udp payload addr)
      ≡ (if port_of addr == 0 then none else some (plain addr, payload))
unfolding encode_socks5_udp decode_socks5_udp ForEach
decode-encode_socks5_udp payload (v4 a b c d port) v = ground arith
decode-encode_socks5_udp payload (v6 octets port flow scope) (v, l, p) =
    by_name 16
      (λ xs.
        decode_socks5_udp (encode_socks5_udp payload (v6 xs port flow scope))
        ≡ (if port == 0 then none else some (v6 xs port 0 0, payload)))
      (λ a b c d f g i j k m n o q r s t. ground arith) octets l
