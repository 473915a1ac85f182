-- ===== src/Proto/Socks5/Protocol.antt =====
-- The server's side of SOCKS5 (crates/proto/src/socks5.rs) as a relation between the bytes that a client
-- sends, the outcome, the bytes that are written and those that are left.
use kanotls.Prelude.{
  ℕ, ◌+◌, ◌≤◌, ◌<◌, ◌≡◌, ◌≢◌, ◌⊎◌, List, [], ◌∷◌, Option, none, some, Result, ok, err, true, false,
  length, get_or, take, drop, All,
}
use kanotls.Proto.Addr.{SocketAddr}
use kanotls.Proto.Target.{Host, domain, ipv4, ipv6, tcp_target, udp_target}
use kanotls.Proto.Utf8.{is_utf8}
use kanotls.Proto.Socks5.{
  InboundRequest, connect, udp_associate, port_at, Socks5Error, unexpected_eof, unsupported_version,
  invalid_method_count, no_auth_not_offered, invalid_request_header, invalid_domain_length,
  invalid_utf8, unknown_atyp, bind_failed, unsupported_cmd,
}

-- The length of a domain, its name, and what follows it.
abbrev pub name_len : List ℕ → ℕ
name_len bytes = get_or (take 1 bytes) 0 0

abbrev pub name : List ℕ → List ℕ
name bytes = take (name_len bytes) (drop 1 bytes)

abbrev pub after_name : List ℕ → List ℕ
after_name bytes = drop (name_len bytes) (drop 1 bytes)

-- How bytes that begin with an address of a type are read, and what is left of them. An error says
-- nothing of what is left.
pub data IsAddress (atyp : ℕ) (bytes : List ℕ)
    : Result Socks5Error (Host × ℕ) → List ℕ → Type 0 where
  v4_cut :
      atyp ≡ 1 → length bytes < 6 → (left : List ℕ) → IsAddress atyp bytes (err unexpected_eof) left
  v4_read :
      atyp ≡ 1
      → 6 ≤ length bytes
      → IsAddress atyp bytes
          (ok (
            ipv4
                (get_or (take 6 bytes) 0 0)
                (get_or (take 6 bytes) 1 0)
                (get_or (take 6 bytes) 2 0)
                (get_or (take 6 bytes) 3 0),
            port_at 4 (take 6 bytes),
          ))
          (drop 6 bytes)
  length_cut :
      atyp ≡ 3 → length bytes < 1 → (left : List ℕ) → IsAddress atyp bytes (err unexpected_eof) left
  length_wrong :
      atyp ≡ 3
      → 1 ≤ length bytes
      → (name_len bytes ≡ 0) ⊎ (253 < name_len bytes)
      → (left : List ℕ) → IsAddress atyp bytes (err (invalid_domain_length (name_len bytes))) left
  name_cut :
      atyp ≡ 3
      → 1 ≤ length bytes
      → (1 ≤ name_len bytes) × (name_len bytes ≤ 253)
      → length bytes < 1 + name_len bytes + 2
      → (left : List ℕ) → IsAddress atyp bytes (err unexpected_eof) left
  name_not_utf8 :
      atyp ≡ 3
      → 1 + name_len bytes + 2 ≤ length bytes
      → (1 ≤ name_len bytes) × (name_len bytes ≤ 253)
      → is_utf8 (name bytes) ≡ false
      → (left : List ℕ) → IsAddress atyp bytes (err invalid_utf8) left
  name_read :
      atyp ≡ 3
      → 1 + name_len bytes + 2 ≤ length bytes
      → (1 ≤ name_len bytes) × (name_len bytes ≤ 253)
      → is_utf8 (name bytes) ≡ true
      → IsAddress atyp bytes
          (ok (domain (name bytes), port_at 0 (take 2 (after_name bytes))))
          (drop 2 (after_name bytes))
  v6_cut :
      atyp ≡ 4
      → length bytes < 18
      → (left : List ℕ) → IsAddress atyp bytes (err unexpected_eof) left
  v6_read :
      atyp ≡ 4
      → 18 ≤ length bytes
      → IsAddress atyp bytes
          (ok (ipv6 (take 16 (take 18 bytes)), port_at 16 (take 18 bytes)))
          (drop 18 bytes)
  no_address :
      (atyp ≢ 1) × (atyp ≢ 3) × (atyp ≢ 4)
      → (left : List ℕ) → IsAddress atyp bytes (err (unknown_atyp atyp)) left

-- A request of four bytes at least, with the version and the reserved byte.
abbrev pub IsHeader : List ℕ → Type 0
IsHeader bytes =
    (4 ≤ length bytes) × (get_or (take 4 bytes) 0 0 ≡ 5) × (get_or (take 4 bytes) 2 0 ≡ 0)

-- How a request is answered behind an accepted method: the outcome, all that is written, and what is
-- left of the bytes.
pub data IsReply (bound : Option SocketAddr) (bytes : List ℕ)
    : Result Socks5Error InboundRequest → List ℕ → List ℕ → Type 0 where
  request_cut :
      length bytes < 4
      → (left : List ℕ) → IsReply bound bytes (err unexpected_eof) (5 ∷ 0 ∷ []) left
  header_wrong :
      4 ≤ length bytes
      → (get_or (take 4 bytes) 0 0 ≢ 5) ⊎ (get_or (take 4 bytes) 2 0 ≢ 0)
      → (left : List ℕ) → IsReply bound bytes (err invalid_request_header) (5 ∷ 0 ∷ []) left
  address_wrong :
      (e : Socks5Error) (left : List ℕ)
      → IsHeader bytes
      → IsAddress (get_or (take 4 bytes) 3 0) (drop 4 bytes) (err e) left
      → IsReply bound bytes (err e) (5 ∷ 0 ∷ []) left
  connects :
      (host : Host) (port : ℕ) (left : List ℕ)
      → IsHeader bytes
      → IsAddress (get_or (take 4 bytes) 3 0) (drop 4 bytes) (ok (host, port)) left
      → get_or (take 4 bytes) 1 0 ≡ 1
      → IsReply bound bytes (ok (connect (tcp_target host port))) (5 ∷ 0 ∷ []) left
  associates :
      (host : Host) (port : ℕ) (left : List ℕ) (addr : SocketAddr)
      → IsHeader bytes
      → IsAddress (get_or (take 4 bytes) 3 0) (drop 4 bytes) (ok (host, port)) left
      → get_or (take 4 bytes) 1 0 ≡ 3
      → bound ≡ some addr
      → IsReply bound bytes (ok (udp_associate (udp_target host port) addr)) (5 ∷ 0 ∷ []) left
  unbound :
      (host : Host) (port : ℕ) (left : List ℕ)
      → IsHeader bytes
      → IsAddress (get_or (take 4 bytes) 3 0) (drop 4 bytes) (ok (host, port)) left
      → get_or (take 4 bytes) 1 0 ≡ 3
      → bound ≡ none
      → IsReply bound bytes (err bind_failed) (5 ∷ 0 ∷ []) left
  unsupported :
      (host : Host) (port : ℕ) (left : List ℕ)
      → IsHeader bytes
      → IsAddress (get_or (take 4 bytes) 3 0) (drop 4 bytes) (ok (host, port)) left
      → (get_or (take 4 bytes) 1 0 ≢ 1) × (get_or (take 4 bytes) 1 0 ≢ 3)
      → IsReply bound bytes
          (err (unsupported_cmd (get_or (take 4 bytes) 1 0)))
          (5 ∷ 0 ∷ 5 ∷ 7 ∷ 0 ∷ 1 ∷ 0 ∷ 0 ∷ 0 ∷ 0 ∷ 0 ∷ 0 ∷ [])
          left

-- The greeting's methods, and the bytes behind them.
abbrev pub method_count : List ℕ → ℕ
method_count bytes = get_or (take 2 bytes) 1 0

abbrev pub methods : List ℕ → List ℕ
methods bytes = take (method_count bytes) (drop 2 bytes)

abbrev pub after_methods : List ℕ → List ℕ
after_methods bytes = drop (method_count bytes) (drop 2 bytes)

-- A greeting of the version, with one to sixteen methods.
abbrev pub IsGreeting : List ℕ → Type 0
IsGreeting bytes =
    (2 ≤ length bytes)
    × (get_or (take 2 bytes) 0 0 ≡ 5)
    × (1 ≤ method_count bytes)
    × (method_count bytes ≤ 16)

-- How a client's bytes are answered from the start.
pub data IsAnswer (bound : Option SocketAddr) (bytes : List ℕ)
    : Result Socks5Error InboundRequest → List ℕ → List ℕ → Type 0 where
  greeting_cut :
      length bytes < 2 → (left : List ℕ) → IsAnswer bound bytes (err unexpected_eof) [] left
  version_wrong :
      2 ≤ length bytes
      → get_or (take 2 bytes) 0 0 ≢ 5
      → (left : List ℕ)
      → IsAnswer bound bytes (err (unsupported_version (get_or (take 2 bytes) 0 0))) [] left
  count_wrong :
      2 ≤ length bytes
      → get_or (take 2 bytes) 0 0 ≡ 5
      → (method_count bytes ≡ 0) ⊎ (16 < method_count bytes)
      → (left : List ℕ)
      → IsAnswer bound bytes (err (invalid_method_count (method_count bytes))) [] left
  methods_cut :
      IsGreeting bytes
      → length bytes < 2 + method_count bytes
      → (left : List ℕ) → IsAnswer bound bytes (err unexpected_eof) [] left
  refused :
      IsGreeting bytes
      → 2 + method_count bytes ≤ length bytes
      → All (λ m. m ≢ 0) (methods bytes)
      → (left : List ℕ) → IsAnswer bound bytes (err no_auth_not_offered) (5 ∷ 255 ∷ []) left
  accepted :
      (r : Result Socks5Error InboundRequest) (written left : List ℕ)
      → IsGreeting bytes
      → 2 + method_count bytes ≤ length bytes
      → ¬ All (λ m. m ≢ 0) (methods bytes)
      → IsReply bound (after_methods bytes) r written left
      → IsAnswer bound bytes r written left
