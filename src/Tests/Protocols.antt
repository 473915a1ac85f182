-- ===== src/Tests/Protocols.antt =====
-- Runs of crates/proto and the theorems about it at concrete inputs.
use kanotls.Proto.Http.{http_handshake}
use kanotls.Proto.Http.Lines.{IsLeft, http_handshake-IsLeft}
use kanotls.Prelude.{
  ◌≡◌, refl, [], ◌∷◌, ◌++◌, none, some, ok, err, true, false, if◌then◌else◌, ◌==◌, ◌&&◌, not, List,
  ℕ, arith,
}
use kanotls.Proto.Addr.{SocketAddr, v4}
use kanotls.Proto.Uot.{encode_udp_packet, decode_udp_packet}
use kanotls.Proto.Uot.RoundTrip.{decode-encode_udp_packet}
use kanotls.Proto.Utf8.{is_utf8}
use kanotls.Proto.Target.{
  parse_plain, authority, decimal, parse_u16, parse_authority, port_0, is_blocked_destination,
}
use kanotls.Proto.Target.Authority.{parse_authority-authority}
use kanotls.Proto.Target.Blocked.{is_blocked_destination-ranges, in_one, to_u32, blocked_ranges}
use kanotls.Proto.Socks5.{handshake_inner, connect, connect_success_reply}
use kanotls.Proto.Socks5.Client.{Socks5Target, named}
use kanotls.Proto.Socks5.Interop.{connect_to, target_of, opened, connect_agreed}
use kanotls.Proto.Socks5.Protocol.{IsAnswer}
use kanotls.Proto.Socks5.Answers.{handshake_inner-IsAnswer}

abbrev localhost : SocketAddr
localhost = v4 127 0 0 1 53

abbrev packet : List ℕ
packet = 1 ∷ 127 ∷ 0 ∷ 0 ∷ 1 ∷ 0 ∷ 53 ∷ 0 ∷ 2 ∷ 8 ∷ 9 ∷ []

packet_runs : encode_udp_packet (8 ∷ 9 ∷ []) localhost 100 ≡ ok packet
unfolding encode_udp_packet
packet_runs = refl

decode-encode_udp_packet_example :
    decode_udp_packet (packet ++ (7 ∷ []))
    ≡ (if 53 == 0 then none else some (localhost, 8 ∷ 9 ∷ []))
decode-encode_udp_packet_example =
    decode-encode_udp_packet (8 ∷ 9 ∷ []) packet (7 ∷ []) localhost 100
      (omega arith, omega arith, omega arith, omega arith, omega arith) (omega arith) packet_runs

-- "a.b", and an e with an acute accent
abbrev site : Socks5Target
site = named (97 ∷ 46 ∷ 195 ∷ 169 ∷ []) 443

site_utf8 : is_utf8 (97 ∷ 46 ∷ 195 ∷ 169 ∷ []) ≡ true
unfolding is_utf8
site_utf8 = refl

surrogate_utf8 : is_utf8 (237 ∷ 160 ∷ 128 ∷ []) ≡ false
unfolding is_utf8
surrogate_utf8 = refl

connect_agreed_example :
    (written : List ℕ) × (connect_to site (opened (5 ∷ 0 ∷ (connect_success_reply ++ (1 ∷ 2 ∷ []))))
      ≡ (ok tt, record { input = 1 ∷ 2 ∷ []; output = written }))
    × (handshake_inner none (opened (written ++ (3 ∷ [])))
        ≡ (ok (connect (target_of site)), record { input = 3 ∷ []; output = 5 ∷ 0 ∷ [] }))
connect_agreed_example =
    connect_agreed none site (3 ∷ []) (1 ∷ 2 ∷ [])
      (omega arith, omega arith, site_utf8, omega arith)

-- A request of the unknown command 9 for port 80 of 1.2.3.4, with a byte behind it.
abbrev unknown_command : List ℕ
unknown_command = 5 ∷ 2 ∷ 2 ∷ 0 ∷ 5 ∷ 9 ∷ 0 ∷ 1 ∷ 1 ∷ 2 ∷ 3 ∷ 4 ∷ 0 ∷ 80 ∷ 7 ∷ []

handshake_inner-IsAnswer_example :
    IsAnswer none unknown_command
      (handshake_inner none (record { input = unknown_command; output = [] })).0
      (handshake_inner none (record { input = unknown_command; output = [] })).1.output
      (handshake_inner none (record { input = unknown_command; output = [] })).1.input
handshake_inner-IsAnswer_example = handshake_inner-IsAnswer none unknown_command

-- "+443", "65536" and "44x"
parse_u16_runs :
    (parse_u16 (43 ∷ 52 ∷ 52 ∷ 51 ∷ []) ≡ some 443)
    × (parse_u16 (54 ∷ 53 ∷ 53 ∷ 51 ∷ 54 ∷ []) ≡ none)
    × (parse_u16 (52 ∷ 52 ∷ 120 ∷ []) ≡ none)
unfolding parse_u16
parse_u16_runs = (refl, refl, refl)

decimal_runs : decimal 443 ≡ 52 ∷ 52 ∷ 51 ∷ []
unfolding decimal
decimal_runs = refl

parse_authority-authority_example :
    parse_authority (authority false (97 ∷ 58 ∷ 98 ∷ []) 443) false
    ≡ (if (443 == 0) && not false then err port_0 else ok (97 ∷ 58 ∷ 98 ∷ [], 443))
parse_authority-authority_example =
    parse_authority-authority false false (97 ∷ 58 ∷ 98 ∷ []) 443 (λ e. absurd (omega (arith, e)))
      (omega arith)

is_blocked_destination-ranges_example :
    is_blocked_destination (v4 100 64 0 1 80) ≡ in_one (to_u32 100 64 0 1) blocked_ranges
is_blocked_destination-ranges_example =
    is_blocked_destination-ranges 100 64 0 1 80
      (omega arith, omega arith, omega arith, omega arith, omega arith)

-- "CONNECT a:1 H", an empty line and three bytes that the client sent early, in one read, and a later read.
abbrev early_reads : List (List ℕ)
early_reads =
    (67 ∷ 79 ∷ 78 ∷ 78 ∷ 69 ∷ 67 ∷ 84 ∷ 32 ∷ 97 ∷ 58 ∷ 49 ∷ 32 ∷ 72 ∷ 13 ∷ 10 ∷ 13 ∷ 10 ∷ 1 ∷ 2 ∷ 3
      ∷ [])
    ∷ (4 ∷ 5 ∷ [])
    ∷ []

-- The three bytes are not there for the relay.
early_bytes_lost : (http_handshake early_reads).1 ≡ ok (97 ∷ [], 1, (4 ∷ 5 ∷ []) ∷ [])
unfolding http_handshake parse_plain
early_bytes_lost = refl

http_handshake-IsLeft_example : IsLeft early_reads ((4 ∷ 5 ∷ []) ∷ [])
http_handshake-IsLeft_example =
    http_handshake-IsLeft early_reads (97 ∷ []) 1 ((4 ∷ 5 ∷ []) ∷ []) early_bytes_lost
