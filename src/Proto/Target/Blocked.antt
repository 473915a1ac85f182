-- ===== src/Proto/Target/Blocked.antt =====
-- The IPv4 addresses that are refused, as ranges of numbers.
use kanotls.Prelude.{
  ℕ, ◌+◌, ◌*◌, ◌<◌, ◌≡◌, refl, List, [], ◌∷◌, Bool, false, leb, ◌==◌, ◌&&◌, ◌||◌, arith, ◌/◌,
}
use kanotls.Proto.Addr.{v4, v6, IsAddr}
use kanotls.Proto.Target.{is_blocked_destination}

-- 0.0.0.0, 10.0.0.0/8, 100.64.0.0/10, 127.0.0.0/8, 169.254.0.0/16, 172.16.0.0/12, 192.168.0.0/16, and all
-- from 224.0.0.0 on.
abbrev pub blocked_ranges : List (ℕ × ℕ)
blocked_ranges =
    (0, 0)
    ∷ (167772160, 184549375)
    ∷ (1681915904, 1686110207)
    ∷ (2130706432, 2147483647)
    ∷ (2851995648, 2852061183)
    ∷ (2886729728, 2887778303)
    ∷ (3232235520, 3232301055)
    ∷ (3758096384, 4294967295)
    ∷ []

abbrev pub in_one : ℕ → List (ℕ × ℕ) → Bool
in_one n [] = false
in_one n ((low, high) ∷ rs) = (leb low n && leb n high) || in_one n rs

-- The address as a number.
abbrev pub to_u32 : ℕ → ℕ → ℕ → ℕ → ℕ
to_u32 a b c d = a * 16777216 + b * 65536 + c * 256 + d

module _ (a b c d : ℕ) (ha : a < 256) (hb : b < 256) (hc : c < 256) (hd : d < 256) where
  in_range : ℕ → ℕ → Bool
  in_range low high = leb low (to_u32 a b c d) && leb (to_u32 a b c d) high

  unspecified : ((a == 0) && ((b == 0) && ((c == 0) && (d == 0)))) ≡ in_range 0 0
  unfolding in_range
  unspecified = ground arith

  private_10 : (a == 10) ≡ in_range 167772160 184549375
  unfolding in_range
  private_10 = ground arith

  shared_100 : ((a == 100) && (b / 64 * 64 == 64)) ≡ in_range 1681915904 1686110207
  unfolding in_range
  shared_100 = ground arith

  loopback : (a == 127) ≡ in_range 2130706432 2147483647
  unfolding in_range
  loopback = ground arith

  link_local : ((a == 169) && (b == 254)) ≡ in_range 2851995648 2852061183
  unfolding in_range
  link_local = ground arith

  private_172 : ((a == 172) && (leb 16 b && leb b 31)) ≡ in_range 2886729728 2887778303
  unfolding in_range
  private_172 = ground arith

  private_192 : ((a == 192) && (b == 168)) ≡ in_range 3232235520 3232301055
  unfolding in_range
  private_192 = ground arith

  from_224 :
      ((leb 224 a && leb a 239)
        || (((a == 255) && ((b == 255) && ((c == 255) && (d == 255)))) || leb 240 a))
      ≡ in_range 3758096384 4294967295
  unfolding in_range
  from_224 = ground arith

-- The order in which the tests are made does not matter.
reordered :
    (shared p1 p2 p3 loop link multi unspec broad high top : Bool)
    → (multi || (broad || high)) ≡ top
    → (shared || ((p1 || (p2 || p3)) || (loop || (link || (multi || (unspec || (broad || high)))))))
      ≡ (unspec || (p1 || (shared || (loop || (link || (p2 || (p3 || (top || false))))))))
reordered shared p1 p2 p3 loop link multi unspec broad high top e = ground arith

-- An IPv4 destination of four octets is blocked exactly if its number lies in one of the blocked
-- ranges.
pub is_blocked_destination-ranges :
    (a b c d port : ℕ)
    → IsAddr (v4 a b c d port)
    → is_blocked_destination (v4 a b c d port) ≡ in_one (to_u32 a b c d) blocked_ranges
unfolding is_blocked_destination in_range
is_blocked_destination-ranges a b c d port (ha, hb, hc, hd, hp) =
    let r = in_range a b c d ha hb hc hd in
    rw
      (
        unspecified a b c d ha hb hc hd,
        private_10 a b c d ha hb hc hd,
        shared_100 a b c d ha hb hc hd,
        loopback a b c d ha hb hc hd,
        link_local a b c d ha hb hc hd,
        private_172 a b c d ha hb hc hd,
        private_192 a b c d ha hb hc hd,
      )
      (reordered (r 1681915904 1686110207) (r 167772160 184549375) (r 2886729728 2887778303)
        (r 3232235520 3232301055) (r 2130706432 2147483647) (r 2851995648 2852061183)
        (leb 224 a && leb a 239) (r 0 0) ((a == 255) && ((b == 255) && ((c == 255) && (d == 255))))
        (leb 240 a) (r 3758096384 4294967295) (from_224 a b c d ha hb hc hd))

-- An IPv4 address is judged alike in its IPv6 form.
pub is_blocked_destination-mapped :
    (a b c d port flow scope : ℕ)
    → is_blocked_destination (
        v6 (0 ∷ 0 ∷ 0 ∷ 0 ∷ 0 ∷ 0 ∷ 0 ∷ 0 ∷ 0 ∷ 0 ∷ 255 ∷ 255 ∷ a ∷ b ∷ c ∷ d ∷ []) port flow scope)
      ≡ is_blocked_destination (v4 a b c d port)
unfolding is_blocked_destination
is_blocked_destination-mapped a b c d port flow scope = refl
