-- ===== src/Proto/Socks5/Interop.antt =====
-- The two sides against each other.
use kanotls.Prelude.{
  ℕ, ◌<◌, ◌≡◌, refl, List, [], ◌∷◌, ◌++◌, Option, none, true, length, ok, arith, length-append,
  take-append, drop-append, append_assoc,
}
use kanotls.Prelude.Bytes.{u16_to_be_bytes}
use kanotls.Proto.Addr.{SocketAddr, v4, v6, IsAddr, encoded_addr, ForEach, by_name, plain}
use kanotls.Proto.Target.{domain, ipv4, ipv6, Target, tcp}
use kanotls.Proto.Utf8.{is_utf8}
use kanotls.Proto.Conn.{Conn, Io, ◌>>◌}
use kanotls.Proto.Socks5.{
  handshake_inner, read_address, serve, socks_reply, connect, connect_success_reply,
  udp_success_reply,
}
use kanotls.Proto.Socks5.Client.{
  Socks5Target, ip, named, socks5_handshake, socks5_send_connect, read_socks5_reply_addr, exchange,
  ClientError,
}

-- What the server makes of the client's target.
abbrev pub target_of : Socks5Target → Target
target_of (ip (v4 a b c d port)) = record { host = ipv4 a b c d; port = port; network = tcp }
target_of (ip (v6 octets port flow scope)) = record {
  host = ipv6 octets;
  port = port;
  network = tcp;
}
target_of (named host port) = record { host = domain host; port = port; network = tcp }

-- A target that both sides allow.
abbrev pub IsTarget : Socks5Target → Type 0
IsTarget (ip addr) = IsAddr addr
IsTarget (named host port) =
    (0 < length host) × (length host < 254) × (is_utf8 host ≡ true) × (port < 65536)

-- The client: it opens and asks for a connection.
abbrev pub connect_to : Socks5Target → Io ClientError (Unit {0})
unfolding socks5_handshake socks5_send_connect
connect_to target = socks5_handshake none >> socks5_send_connect target

abbrev pub opened : List ℕ → Conn
opened input = record { input = input; output = [] }

-- The request that the client writes.
abbrev request_of : Socks5Target → List ℕ
request_of (ip addr) = 5 ∷ 1 ∷ 0 ∷ encoded_addr addr
request_of (named host port) = 5 ∷ 1 ∷ 0 ∷ 3 ∷ length host ∷ (host ++ u16_to_be_bytes port)

connect_to-request :
    (target : Socks5Target) (later : List ℕ)
    → IsTarget target
    → connect_to target (opened (5 ∷ 0 ∷ (connect_success_reply ++ later)))
      ≡ (ok tt, record { input = later; output = 5 ∷ 1 ∷ 0 ∷ request_of target })
unfolding connect_to socks5_handshake socks5_send_connect exchange read_socks5_reply_addr
    connect_success_reply socks_reply
connect_to-request (ip addr) later h = ground arith
connect_to-request (named host port) later h = ground arith

handshake_inner-request :
    (bound : Option SocketAddr) (target : Socks5Target) (rest : List ℕ)
    → IsTarget target
    → handshake_inner bound (opened (5 ∷ 1 ∷ 0 ∷ (request_of target ++ rest)))
      ≡ (ok (connect (target_of target)), record { input = rest; output = 5 ∷ 0 ∷ [] })
unfolding handshake_inner read_address serve ForEach
handshake_inner-request bound (ip (v4 a b c d port)) rest h = ground arith
handshake_inner-request bound (ip (v6 octets port flow scope)) rest (v, l, p) =
    by_name 16
      (λ xs.
        handshake_inner bound
          (opened (5 ∷ 1 ∷ 0 ∷ (request_of (ip (v6 xs port flow scope)) ++ rest)))
        ≡ (
          ok (connect (target_of (ip (v6 xs port flow scope)))),
          record { input = rest; output = 5 ∷ 0 ∷ [] },
        ))
      (λ a b c d f g i j k m n o q r s t. ground arith) octets l
handshake_inner-request bound (named host port) rest h = ground (
  arith,
  append_assoc host (u16_to_be_bytes port) rest,
  length-append host (u16_to_be_bytes port ++ rest),
  take-append (length host) host (u16_to_be_bytes port ++ rest) refl,
  drop-append (length host) host (u16_to_be_bytes port ++ rest) refl,
)

-- A client that asks without authentication for a connection to an address, or to a domain of 1 to 253
-- bytes of UTF-8, and the server's handshake understand each other: the server takes exactly what the
-- client wrote, whatever follows it, and gets the client's target; on what the server answers, followed
-- by its success reply, the client ends well and leaves what comes after it.
pub connect_agreed :
    (bound : Option SocketAddr) (target : Socks5Target) (rest later : List ℕ)
    → IsTarget target
    → (written : List ℕ) × (connect_to target (opened (5 ∷ 0 ∷ (connect_success_reply ++ later)))
        ≡ (ok tt, record { input = later; output = written }))
      × (handshake_inner bound (opened (written ++ rest))
          ≡ (ok (connect (target_of target)), record { input = rest; output = 5 ∷ 0 ∷ [] }))
connect_agreed bound target rest later h = (
  5 ∷ 1 ∷ 0 ∷ request_of target,
  connect_to-request target later h,
  handshake_inner-request bound target rest h,
)

-- The answer to a UDP association: the client reads back the address of the server's socket.
pub udp_success_reply_read :
    (addr : SocketAddr) (later out : List ℕ)
    → IsAddr addr
    → read_socks5_reply_addr (record { input = udp_success_reply addr ++ later; output = out })
      ≡ (ok (ip (plain addr)), record { input = later; output = out })
unfolding read_socks5_reply_addr udp_success_reply ForEach
udp_success_reply_read (v4 a b c d port) later out h = ground arith
udp_success_reply_read (v6 octets port flow scope) later out (v, l, p) =
    by_name 16
      (λ xs.
        read_socks5_reply_addr
          (record { input = udp_success_reply (v6 xs port flow scope) ++ later; output = out })
        ≡ (ok (ip (v6 xs port 0 0)), record { input = later; output = out }))
      (λ a b c d f g i j k m n o q r s t. ground arith) octets l
