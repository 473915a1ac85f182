-- ===== src/Proto/Target.antt =====
-- crates/proto/src/target.rs: where a connection goes.
pub mod Authority
pub mod Blocked
use kanotls.Prelude.{
  ℕ, zero, suc, ◌+◌, ◌-◌, ◌*◌, ◌/◌, ◌%◌, List, [], ◌∷◌, ◌++◌, Option, none, some, Result, ok, err,
  Bool, true, false, if◌then◌else◌, ltb, leb, ◌==◌, ◌&&◌, ◌||◌, not, length, get_or, take,
}
use kanotls.Proto.Addr.{SocketAddr, v4, v6, all_zero}

-- A domain's bytes, four octets, or sixteen.
pub data Host : Type 0 where
  domain : List ℕ → Host
  ipv4 : ℕ → ℕ → ℕ → ℕ → Host
  ipv6 : List ℕ → Host

pub data Network : Type 0 where
  tcp : Network
  udp : Network

pub record Target : Type 0 where
  pub host : Host
  pub port : ℕ
  pub network : Network

abbrev pub new_target : Host → ℕ → Network → Target
new_target host port network = record { host = host; port = port; network = network }

abbrev pub tcp_target : Host → ℕ → Target
tcp_target host port = new_target host port tcp

abbrev pub udp_target : Host → ℕ → Target
udp_target host port = new_target host port udp

-- The decimal digits in front of what stands behind them; five are enough for a port.
abbrev pub digits_before : ℕ → ℕ → List ℕ → List ℕ
digits_before zero n tail = (48 + n % 10) ∷ tail
digits_before (suc fuel) n tail =
    let more = digits_before fuel (n / 10) ((48 + n % 10) ∷ tail) in
    if ltb n 10 then (48 + n) ∷ tail else more

unfoldable pub decimal : ℕ → List ℕ
decimal n = digits_before 4 n []

-- "host:port", with an IPv6 address in brackets.
unfoldable pub authority : Bool → List ℕ → ℕ → List ℕ
unfolding decimal
authority bracketed host port =
    if bracketed then 91 ∷ (host ++ (93 ∷ 58 ∷ decimal port)) else host ++ (58 ∷ decimal port)

pub data TargetError : Type 0 where
  unclosed_bracket : TargetError
  missing_port : TargetError
  empty_host : TargetError
  port_syntax : TargetError
  port_0 : TargetError

-- `parse::<u16>`: an optional plus and at least one digit.
abbrev pub parse_digits : ℕ → List ℕ → Option ℕ
parse_digits acc [] = some acc
parse_digits acc (c ∷ cs) =
    let rest = parse_digits (acc * 10 + (c - 48)) cs in
    if leb 48 c && leb c 57 then (if ltb 65535 (acc * 10 + (c - 48)) then none else rest) else none

unfoldable pub parse_u16 : List ℕ → Option ℕ
parse_u16 [] = none
parse_u16 (c ∷ []) = parse_digits 0 (c ∷ [])
parse_u16 (c ∷ (d ∷ ds)) = if c == 43 then parse_digits 0 (d ∷ ds) else parse_digits 0 (c ∷ d ∷ ds)

-- What stands before the first byte of a kind and what after it.
abbrev pub split_once : ℕ → List ℕ → Option (List ℕ × List ℕ)
split_once b [] = none
split_once b (c ∷ cs) =
    let later = split_once b cs in
    if c == b
    then some ([], cs)
    else elim later [ none ↦ none | some (before, after) ↦ some (c ∷ before, after) ]

-- The same for the last one.
abbrev pub rsplit_once : ℕ → List ℕ → Option (List ℕ × List ℕ)
rsplit_once b [] = none
rsplit_once b (c ∷ cs) = elim (rsplit_once b cs) [
  | none ↦ if c == b then some ([], cs) else none
  | some (before, after) ↦ some (c ∷ before, after)
]

abbrev pub checked_port : Bool → List ℕ → Option ℕ → Result TargetError (List ℕ × ℕ)
checked_port allow_zero_port host none = err port_syntax
checked_port allow_zero_port host (some port) =
    if (port == 0) && not allow_zero_port then err port_0 else ok (host, port)

unfoldable pub parse_behind_bracket :
    Bool → Option (List ℕ × List ℕ) → Result TargetError (List ℕ × ℕ)
unfolding parse_u16
parse_behind_bracket allow_zero_port none = err unclosed_bracket
parse_behind_bracket allow_zero_port (some (host, [])) = err missing_port
parse_behind_bracket allow_zero_port (some (host, c ∷ cs)) =
    if c == 58 then checked_port allow_zero_port host (parse_u16 cs) else err missing_port

unfoldable pub parse_plain : Bool → Option (List ℕ × List ℕ) → Result TargetError (List ℕ × ℕ)
unfolding parse_u16
parse_plain allow_zero_port none = err missing_port
parse_plain allow_zero_port (some (host, port)) =
    if length host == 0 then err empty_host else checked_port allow_zero_port host (parse_u16 port)

unfoldable pub parse_authority : List ℕ → Bool → Result TargetError (List ℕ × ℕ)
parse_authority [] allow_zero_port = err missing_port
parse_authority (c ∷ cs) allow_zero_port =
    if c == 91
    then parse_behind_bracket allow_zero_port (split_once 93 cs)
    else parse_plain allow_zero_port (rsplit_once 58 (c ∷ cs))

unfoldable pub parse_authority_target : List ℕ → Result TargetError (List ℕ × ℕ)
unfolding parse_authority
parse_authority_target target = parse_authority target false

-- `Ipv4Addr`'s and `Ipv6Addr`'s classes.
abbrev is_private : ℕ → ℕ → Bool
is_private a b = (a == 10) || (((a == 172) && (leb 16 b && leb b 31)) || ((a == 192) && (b == 168)))

-- `to_ipv4_mapped`: ten octets 0 and two octets 255 in front.
abbrev is_mapped : List ℕ → Bool
is_mapped octets =
    all_zero (take 10 octets) && ((get_or octets 10 0 == 255) && (get_or octets 11 0 == 255))

abbrev blocked_v4 : ℕ → ℕ → ℕ → ℕ → Bool
blocked_v4 a b c d =
    ((a == 100) && (b / 64 * 64 == 64))
    || (is_private a b
        || ((a == 127)
            || (((a == 169) && (b == 254))
                || (((leb 224 a) && leb a 239)
                    || (((a == 0) && ((b == 0) && ((c == 0) && (d == 0))))
                        || (((a == 255) && ((b == 255) && ((c == 255) && (d == 255))))
                            || leb 240 a))))))

abbrev blocked_v6 : List ℕ → Bool
blocked_v6 octets =
    if is_mapped octets
    then blocked_v4 (get_or octets 12 0) (get_or octets 13 0) (get_or octets 14 0)
        (get_or octets 15 0)
    else (all_zero (take 15 octets) && (get_or octets 15 0 == 1))
      || (((get_or octets 0 0 == 254) && (get_or octets 1 0 / 64 * 64 == 128))
          || ((get_or octets 0 0 / 2 * 2 == 252)
              || ((get_or octets 0 0 == 255) || all_zero octets)))

unfoldable pub is_blocked_destination : SocketAddr → Bool
is_blocked_destination (v4 a b c d port) = blocked_v4 a b c d
is_blocked_destination (v6 octets port flow scope) = blocked_v6 octets
