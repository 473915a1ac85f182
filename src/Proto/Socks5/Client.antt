-- ===== src/Proto/Socks5/Client.antt =====
-- The client's side of crates/proto/src/socks5.rs, on a connection that is open. What the resolver and the
-- socket answer is an argument.
use kanotls.Prelude.{
  ℕ, List, [], ◌∷◌, ◌++◌, Option, none, some, Bool, if◌then◌else◌, ltb, ◌==◌, ◌&&◌, ◌||◌, not,
  get_or, take, length, Result, ok, err,
}
use kanotls.Prelude.Bytes.{u16_from_be_bytes, u16_to_be_bytes, as_u8}
use kanotls.Proto.Addr.{SocketAddr, v4, v6, encoded_addr, port_of, all_zero}
use kanotls.Proto.Utf8.{is_utf8}
use kanotls.Proto.Conn.{Io, ◌>>=◌, ◌>>◌, done, bail, read_exact, write_all}
use kanotls.Proto.Socks5.{
  socks_version, method_no_auth, cmd_connect, cmd_udp_associate, rep_succeeded,
}

abbrev pub method_user_pass : ℕ
method_user_pass = 2

pub data ClientError : Type 0 where
  unexpected_eof : ClientError
  rejected_no_auth : ℕ → ℕ → ClientError
  no_user_pass_auth : ℕ → ℕ → ClientError
  username_too_long : ClientError
  password_too_long : ClientError
  authentication_failed : ClientError
  invalid_reply_version : ℕ → ClientError
  request_failed : ℕ → ClientError
  invalid_reserved_byte : ℕ → ClientError
  empty_reply_domain : ClientError
  invalid_utf8 : ClientError
  unexpected_atyp : ℕ → ClientError
  hostname_too_long : ℕ → ClientError
  resolve_failed : ClientError
  peer_addr_failed : ClientError
  relay_port_0 : ClientError

pub data Socks5Target : Type 0 where
  ip : SocketAddr → Socks5Target
  -- a host's bytes and a port
  named : List ℕ → ℕ → Socks5Target

abbrev handshake_no_auth : Io ClientError (Unit {0})
handshake_no_auth = do
  write_all (socks_version ∷ 1 ∷ method_no_auth ∷ [])
  resp ← read_exact unexpected_eof 2
  if not (get_or resp 0 0 == socks_version) || not (get_or resp 1 0 == method_no_auth)
      then bail (rejected_no_auth (get_or resp 0 0) (get_or resp 1 0))
      else done tt

-- The server's answer to the name and the password.
abbrev finish_auth : Io ClientError (Unit {0})
finish_auth = do
  auth_resp ← read_exact unexpected_eof 2
  if not (get_or auth_resp 1 0 == 0) then bail authentication_failed else done tt

abbrev send_user_pass : List ℕ → List ℕ → Io ClientError (Unit {0})
send_user_pass username password =
    if ltb 255 (length username)
    then bail username_too_long
    else if ltb 255 (length password)
    then bail password_too_long
    else do
      write_all (
          1
          ∷ as_u8 (length username)
          ∷ (take (as_u8 (length username)) username
              ++ (as_u8 (length password) ∷ take (as_u8 (length password)) password)))
      finish_auth

abbrev handshake_user_pass : List ℕ → List ℕ → Io ClientError (Unit {0})
handshake_user_pass username password = do
  write_all (socks_version ∷ 1 ∷ method_user_pass ∷ [])
  resp ← read_exact unexpected_eof 2
  if not (get_or resp 0 0 == socks_version) || not (get_or resp 1 0 == method_user_pass)
      then bail (no_user_pass_auth (get_or resp 0 0) (get_or resp 1 0))
      else send_user_pass username password

unfoldable pub socks5_handshake : Option (List ℕ × List ℕ) → Io ClientError (Unit {0})
socks5_handshake none = handshake_no_auth
socks5_handshake (some (username, password)) = handshake_user_pass username password

abbrev read_v4_reply : Io ClientError Socks5Target
read_v4_reply = do
  bind ← read_exact unexpected_eof 6
  done (
      ip (
        v4 (get_or bind 0 0) (get_or bind 1 0) (get_or bind 2 0) (get_or bind 3 0)
          (u16_from_be_bytes (get_or bind 4 0) (get_or bind 5 0))))

abbrev read_domain_reply : Io ClientError Socks5Target
read_domain_reply = do
  len ← read_exact unexpected_eof 1
  if get_or len 0 0 == 0 then bail empty_reply_domain else do
    name ← read_exact unexpected_eof (get_or len 0 0)
    port ← read_exact unexpected_eof 2
    if is_utf8 name
        then done (named name (u16_from_be_bytes (get_or port 0 0) (get_or port 1 0)))
        else bail invalid_utf8

abbrev read_v6_reply : Io ClientError Socks5Target
read_v6_reply = do
  bind ← read_exact unexpected_eof 18
  done (ip (v6 (take 16 bind) (u16_from_be_bytes (get_or bind 16 0) (get_or bind 17 0)) 0 0))

unfoldable pub read_socks5_reply_addr : Io ClientError Socks5Target
read_socks5_reply_addr = do
  head ← read_exact unexpected_eof 4
  if not (get_or head 0 0 == socks_version)
      then bail (invalid_reply_version (get_or head 0 0))
      else if not (get_or head 1 0 == rep_succeeded)
      then bail (request_failed (get_or head 1 0))
      else if not (get_or head 2 0 == 0)
      then bail (invalid_reserved_byte (get_or head 2 0))
      else if get_or head 3 0 == 1
      then read_v4_reply
      else if get_or head 3 0 == 3
      then read_domain_reply
      else if get_or head 3 0 == 4
      then read_v6_reply
      else bail (unexpected_atyp (get_or head 3 0))

-- The request goes out and the reply is awaited.
unfoldable pub exchange : List ℕ → Io ClientError (Unit {0})
unfolding read_socks5_reply_addr
exchange request = do write_all request; read_socks5_reply_addr; done tt

unfoldable pub socks5_send_connect : Socks5Target → Io ClientError (Unit {0})
socks5_send_connect (ip addr) = exchange (socks_version ∷ cmd_connect ∷ 0 ∷ encoded_addr addr)
socks5_send_connect (named host port) =
    if ltb 255 (length host)
    then bail (hostname_too_long (length host))
    else exchange
        (socks_version ∷ cmd_connect ∷ 0 ∷ 3 ∷ as_u8 (length host) ∷ (host ++ u16_to_be_bytes port))

abbrev is_unspecified : SocketAddr → Bool
is_unspecified (v4 a b c d port) = (a == 0) && ((b == 0) && ((c == 0) && (d == 0)))
is_unspecified (v6 octets port flow scope) = all_zero octets

-- `SocketAddr::new` with the address of the one and the port of the other.
abbrev with_port : SocketAddr → ℕ → SocketAddr
with_port (v4 a b c d port) p = v4 a b c d p
with_port (v6 octets port flow scope) p = v6 octets p 0 0

unfoldable pub resolve_zero_bind : Option SocketAddr → SocketAddr → Result ClientError SocketAddr
resolve_zero_bind peer_addr addr = if not (is_unspecified addr) then ok addr else elim peer_addr [
  | none ↦ err peer_addr_failed
  | some peer ↦ ok (with_port peer (port_of addr))
]

-- The first address that the resolver allows for a domain.
abbrev relay_addr : (List ℕ → ℕ → Option SocketAddr) → Socks5Target → Result ClientError SocketAddr
relay_addr resolve (ip addr) = ok addr
relay_addr resolve (named host port) = elim (resolve host port) [
  | none ↦ err resolve_failed
  | some addr ↦ ok addr
]

unfoldable pub checked_relay :
    Option SocketAddr → Result ClientError SocketAddr → Result ClientError SocketAddr
unfolding resolve_zero_bind
checked_relay peer_addr (err e) = err e
checked_relay peer_addr (ok addr) = elim (resolve_zero_bind peer_addr addr) [
  | err e ↦ err e
  | ok relay ↦ if port_of relay == 0 then err relay_port_0 else ok relay
]

unfoldable pub socks5_send_udp_associate :
    (List ℕ → ℕ → Option SocketAddr) → Option SocketAddr → Io ClientError SocketAddr
unfolding read_socks5_reply_addr
socks5_send_udp_associate resolve peer_addr = do
  write_all (socks_version ∷ cmd_udp_associate ∷ 0 ∷ 1 ∷ 0 ∷ 0 ∷ 0 ∷ 0 ∷ 0 ∷ 0 ∷ [])
  reply ← read_socks5_reply_addr
  λ c. (checked_relay peer_addr (relay_addr resolve reply), c)
