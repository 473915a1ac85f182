-- ===== src/Proto/Socks5.antt =====
-- crates/proto/src/socks5.rs: both sides of the SOCKS5 handshake. What the listener and the resolver give
-- is an argument. The time limit of ten seconds around the server's side and the log line are left out.
pub mod Client
pub mod Interop
pub mod Protocol
pub mod Answers
use kanotls.Prelude.{
  ℕ, ◌+◌, List, [], ◌∷◌, ◌++◌, Option, none, some, Bool, true, false, if◌then◌else◌, ltb, leb, ◌==◌,
  ◌&&◌, ◌||◌, not, get_or, take, drop,
}
use kanotls.Prelude.Bytes.{u16_from_be_bytes}
use kanotls.Proto.Addr.{SocketAddr, v4, v6, encoded_addr}
use kanotls.Proto.Target.{Host, domain, ipv4, ipv6, Target, tcp_target, udp_target}
use kanotls.Proto.Utf8.{is_utf8}
use kanotls.Proto.Conn.{Io, ◌>>=◌, ◌>>◌, done, bail, read_exact, write_all}

abbrev pub socks_version : ℕ
socks_version = 5

abbrev pub method_no_auth : ℕ
method_no_auth = 0

abbrev pub method_no_acceptable : ℕ
method_no_acceptable = 255

abbrev pub cmd_connect : ℕ
cmd_connect = 1

abbrev pub cmd_udp_associate : ℕ
cmd_udp_associate = 3

abbrev pub rep_succeeded : ℕ
rep_succeeded = 0

abbrev pub rep_command_not_supported : ℕ
rep_command_not_supported = 7

pub data Socks5Error : Type 0 where
  unexpected_eof : Socks5Error
  unsupported_version : ℕ → Socks5Error
  invalid_method_count : ℕ → Socks5Error
  no_auth_not_offered : Socks5Error
  invalid_request_header : Socks5Error
  invalid_domain_length : ℕ → Socks5Error
  invalid_utf8 : Socks5Error
  unknown_atyp : ℕ → Socks5Error
  bind_failed : Socks5Error
  unsupported_cmd : ℕ → Socks5Error

pub data InboundRequest : Type 0 where
  connect : Target → InboundRequest
  -- the target and the address of the UDP socket
  udp_associate : Target → SocketAddr → InboundRequest

abbrev pub contains : List ℕ → ℕ → Bool
contains [] x = false
contains (y ∷ ys) x = (y == x) || contains ys x

abbrev pub port_at : ℕ → List ℕ → ℕ
port_at i d = u16_from_be_bytes (get_or d i 0) (get_or d (i + 1) 0)

unfoldable pub socks_reply : ℕ → List ℕ
socks_reply code = socks_version ∷ code ∷ 0 ∷ 1 ∷ 0 ∷ 0 ∷ 0 ∷ 0 ∷ 0 ∷ 0 ∷ []

abbrev pub read_v4_address : Io Socks5Error (Host × ℕ)
read_v4_address = do
  data4 ← read_exact unexpected_eof 6
  done (
    ipv4 (get_or data4 0 0) (get_or data4 1 0) (get_or data4 2 0) (get_or data4 3 0),
    port_at 4 data4,
  )

abbrev pub read_domain_address : Io Socks5Error (Host × ℕ)
read_domain_address = do
  len ← read_exact unexpected_eof 1
  if (get_or len 0 0 == 0) || ltb 253 (get_or len 0 0)
      then bail (invalid_domain_length (get_or len 0 0))
      else do
        name ← read_exact unexpected_eof (get_or len 0 0)
        port_buf ← read_exact unexpected_eof 2
        if is_utf8 name then done (domain name, port_at 0 port_buf) else bail invalid_utf8

abbrev pub read_v6_address : Io Socks5Error (Host × ℕ)
read_v6_address = do
  data6 ← read_exact unexpected_eof 18
  done (ipv6 (take 16 data6), port_at 16 data6)

unfoldable pub read_address : ℕ → Io Socks5Error (Host × ℕ)
read_address atyp =
    if atyp == 1
    then read_v4_address
    else if atyp == 3
    then read_domain_address
    else if atyp == 4
    then read_v6_address
    else bail (unknown_atyp atyp)

-- What the commands do; `bound` is the address of the UDP socket if it could be bound.
unfoldable pub serve : Option SocketAddr → ℕ → Host × ℕ → Io Socks5Error InboundRequest
unfolding socks_reply
serve bound cmd (host, port) =
    if cmd == cmd_connect
    then done (connect (tcp_target host port))
    else if cmd == cmd_udp_associate
    then elim bound [
      | none ↦ bail bind_failed
      | some addr ↦ done (udp_associate (udp_target host port) addr)
    ]
    else do write_all (socks_reply rep_command_not_supported); bail (unsupported_cmd cmd)

abbrev pub serve_request : Option SocketAddr → Io Socks5Error InboundRequest
serve_request bound = do
  req ← read_exact unexpected_eof 4
  if not (get_or req 0 0 == socks_version) || not (get_or req 2 0 == 0)
      then bail invalid_request_header
      else do addr ← read_address (get_or req 3 0); serve bound (get_or req 1 0) addr

abbrev refuse_methods : Io Socks5Error InboundRequest
refuse_methods = do write_all (socks_version ∷ method_no_acceptable ∷ []); bail no_auth_not_offered

abbrev pub accept_methods : Option SocketAddr → Io Socks5Error InboundRequest
accept_methods bound = do write_all (socks_version ∷ method_no_auth ∷ []); serve_request bound

unfoldable pub handshake_inner : Option SocketAddr → Io Socks5Error InboundRequest
handshake_inner bound = do
  head ← read_exact unexpected_eof 2
  if not (get_or head 0 0 == socks_version)
      then bail (unsupported_version (get_or head 0 0))
      else if (get_or head 1 0 == 0) || ltb 16 (get_or head 1 0)
      then bail (invalid_method_count (get_or head 1 0))
      else do
        methods ← read_exact unexpected_eof (get_or head 1 0)
        if not (contains methods method_no_auth) then refuse_methods else accept_methods bound

unfoldable pub connect_success_reply : List ℕ
unfolding socks_reply
connect_success_reply = socks_reply rep_succeeded

unfoldable pub udp_success_reply : SocketAddr → List ℕ
udp_success_reply addr = socks_version ∷ rep_succeeded ∷ 0 ∷ encoded_addr addr
