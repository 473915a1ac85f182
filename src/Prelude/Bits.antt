-- ===== src/Prelude/Bits.antt =====
-- The binary digits of a word. `bit x k` is digit `k`, and the operations of the sources on words are
-- described digit by digit: `|`, `& (1 << k)`, `<< d` and the wrap-around of a word.
use Prim.Native.Nat.{
  ℕ, zero, suc, ◌+◌, ◌-◌, ◌*◌, ◌/◌, ◌%◌, ◌^◌, ◌≤◌, ◌<◌, min, max, bit_and, bit_or, bit_xor, digits,
  differ, bit_and-bitwise, bit_or-bitwise, bit_xor-bitwise,
}
use mathlib.Core.Path.{◌≡◌, refl, ap, ◌∙◌}
use native.Mathlib.Nat.{div-div-eq-div-mul, div-add-mod, mul_comm, pow-suc, one-le-pow}
use native.Mathlib.Omega.{arith}
use kanotls.Prelude.Tests.{if◌then◌else◌, ltb, ◌==◌}

pub bit : ℕ → ℕ → ℕ
bit x zero = x % 2
bit x (suc k) = bit (x / 2) k

-- The native operations stand for a recursion on digits with fuel. The fuel does not matter.
module _ (z : ℕ → ℕ) (f : ℕ → ℕ → ℕ) where
  enough_fuel :
      (fuel more x y : ℕ) → x ≤ fuel → x ≤ more → digits z f fuel x y ≡ digits z f more x y
  enough_fuel zero zero x y _ _ = refl
  enough_fuel (suc fuel) zero zero y _ _ = refl
  enough_fuel zero (suc more) zero y _ _ = refl
  enough_fuel (suc fuel) (suc more) zero y _ _ = refl
  enough_fuel (suc fuel) zero (suc x) y _ short = absurd (omega arith)
  enough_fuel zero (suc more) (suc x) y short _ = absurd (omega arith)
  enough_fuel (suc fuel) (suc more) (suc x) y h k =
      ap (λ (high : ℕ). high * 2 + f (suc x % 2) (y % 2))
        (enough_fuel fuel more (suc x / 2) (y / 2) (omega arith) (omega arith))

lowest_or : (x y : ℕ) → bit_or x y ≡ bit_or (x / 2) (y / 2) * 2 + max (x % 2) (y % 2)
lowest_or zero y = omega (arith, bit_or-bitwise zero (y / 2), bit_or-bitwise zero y)
lowest_or (suc x) y =
    let half : ℕ = suc x / 2 in
    omega (
      arith,
      enough_fuel (λ w. w) max x half half (y / 2) (omega arith) (omega arith),
      bit_or-bitwise half (y / 2),
      bit_or-bitwise (suc x) y,
    )

lowest_and : (x y : ℕ) → bit_and x y ≡ bit_and (x / 2) (y / 2) * 2 + min (x % 2) (y % 2)
lowest_and zero y = omega (arith, bit_and-bitwise zero (y / 2), bit_and-bitwise zero y)
lowest_and (suc x) y =
    let half : ℕ = suc x / 2 in
    omega (
      arith,
      enough_fuel (λ _. zero) min x half half (y / 2) (omega arith) (omega arith),
      bit_and-bitwise half (y / 2),
      bit_and-bitwise (suc x) y,
    )

pub bit-lt-two : (x k : ℕ) → bit x k < 2
unfolding bit
bit-lt-two x zero = omega arith
bit-lt-two x (suc k) = bit-lt-two (x / 2) k

pub bit-bit_or : (a b k : ℕ) → bit (bit_or a b) k ≡ max (bit a k) (bit b k)
unfolding bit
bit-bit_or a b zero = omega (arith, lowest_or a b)
bit-bit_or a b (suc k) =
    let e : bit_or a b / 2 ≡ bit_or (a / 2) (b / 2) = omega (arith, lowest_or a b) in
    ap (λ (t : ℕ). bit t k) e ∙ bit-bit_or (a / 2) (b / 2) k

bit-zero : (k : ℕ) → bit 0 k ≡ 0
unfolding bit
bit-zero zero = refl
bit-zero (suc k) = bit-zero k

half_pow : (k : ℕ) → 2 ^ suc k / 2 ≡ 2 ^ k
half_pow k = omega (arith, pow-suc 2 k)

pub bit-pow : (k j : ℕ) → bit (2 ^ k) j ≡ (if k == j then 1 else 0)
unfolding bit
bit-pow zero zero = refl
bit-pow zero (suc j) = ground (arith, bit-zero j)
bit-pow (suc k) zero = ground (arith, pow-suc 2 k)
bit-pow (suc k) (suc j) = ap (λ (t : ℕ). bit t j) (half_pow k) ∙ bit-pow k j ∙ ground arith

and_nothing : (n a : ℕ) → a ≤ n → bit_and a 0 ≡ 0
and_nothing n zero h = refl
and_nothing zero (suc a) h = absurd (omega arith)
and_nothing (suc n) (suc a) h =
    omega (arith, lowest_and (suc a) 0, and_nothing n (suc a / 2) (omega arith))

-- `x & (1 << k)` is 0 exactly when digit `k` is.
pub bit_and-pow : (x k : ℕ) → bit_and x (2 ^ k) ≡ bit x k * 2 ^ k
unfolding bit
bit_and-pow x zero = omega (arith, lowest_and x 1, and_nothing (x / 2) (x / 2) (omega arith))
bit_and-pow x (suc k) = omega (
  arith,
  lowest_and x (2 ^ suc k),
  ap (bit_and (x / 2)) (half_pow k),
  bit_and-pow (x / 2) k,
  pow-suc 2 k,
  ap (λ (t : ℕ). bit (x / 2) k * t) (pow-suc 2 k),
)

-- The low digits of a word survive its wrap-around.
half_mod : (x m : ℕ) → 0 < m → x % (2 * m) / 2 ≡ x / 2 % m
half_mod x m h = omega (
  arith,
  div-add-mod x (2 * m),
  div-add-mod (x / 2) m,
  div-div-eq-div-mul x 2 m,
  ap (λ (t : ℕ). m * t) (div-div-eq-div-mul x 2 m),
)

pub bit-mod : (x n k : ℕ) → k < n → bit (x % 2 ^ n) k ≡ bit x k
unfolding bit
bit-mod x zero k h = absurd (omega arith)
bit-mod x (suc n) zero h =
    omega (arith, div-add-mod x (2 ^ suc n), ap (λ (t : ℕ). t * (x / 2 ^ suc n)) (pow-suc 2 n))
bit-mod x (suc n) (suc k) h =
    let e : x % 2 ^ suc n / 2 ≡ x / 2 % 2 ^ n =
      ap (λ (t : ℕ). x % t / 2) (pow-suc 2 n ∙ mul_comm (2 ^ n) 2)
      ∙ half_mod x (2 ^ n) (one-le-pow n 2 (omega arith)) in
    ap (λ (t : ℕ). bit t k) e ∙ bit-mod (x / 2) n k (omega arith)

pub bit-shift : (x d k : ℕ) → bit (x * 2 ^ d) k ≡ (if ltb k d then 0 else bit x (k - d))
unfolding bit
bit-shift x zero k =
    let e : x * 2 ^ 0 ≡ x = omega arith in
    let f : k - 0 ≡ k = omega arith in ground (arith, ap (λ (t : ℕ). bit t k) e, ap (bit x) f)
bit-shift x (suc d) zero = ground (arith, ap (λ (t : ℕ). x * t) (pow-suc 2 d))
bit-shift x (suc d) (suc k) =
    let e : x * 2 ^ suc d / 2 ≡ x * 2 ^ d = omega (arith, ap (λ (t : ℕ). x * t) (pow-suc 2 d)) in
    ap (λ (t : ℕ). bit t k) e ∙ bit-shift x d k ∙ ground arith

-- Exclusive or, twice with the same word, gives the word back.
lowest_xor : (x y : ℕ) → bit_xor x y ≡ bit_xor (x / 2) (y / 2) * 2 + differ (x % 2) (y % 2)
lowest_xor zero y = omega (arith, bit_xor-bitwise zero (y / 2), bit_xor-bitwise zero y)
lowest_xor (suc x) y =
    let half : ℕ = suc x / 2 in
    omega (
      arith,
      enough_fuel (λ w. w) differ x half half (y / 2) (omega arith) (omega arith),
      bit_xor-bitwise half (y / 2),
      bit_xor-bitwise (suc x) y,
    )

differ-digits : (a b : ℕ) → a < 2 → b < 2 → (differ a b < 2) × (differ (differ a b) b ≡ a)
differ-digits zero zero h k = (omega arith, refl)
differ-digits zero (suc zero) h k = (omega arith, refl)
differ-digits (suc zero) zero h k = (omega arith, refl)
differ-digits (suc zero) (suc zero) h k = (omega arith, refl)
differ-digits (suc (suc a)) b h k = absurd (omega arith)
differ-digits zero (suc (suc b)) h k = absurd (omega arith)
differ-digits (suc zero) (suc (suc b)) h k = absurd (omega arith)

xor_twice_below : (n x y : ℕ) → x + y ≤ n → bit_xor (bit_xor x y) y ≡ x
xor_twice_below zero zero zero h = refl
xor_twice_below zero zero (suc y) h = absurd (omega arith)
xor_twice_below zero (suc x) y h = absurd (omega arith)
xor_twice_below (suc n) x y h =
    let (digit, back) = differ-digits (x % 2) (y % 2) (omega arith) (omega arith) in
    let half : bit_xor x y / 2 ≡ bit_xor (x / 2) (y / 2) = omega (arith, lowest_xor x y) in
    let low : bit_xor x y % 2 ≡ differ (x % 2) (y % 2) = omega (arith, lowest_xor x y) in
    omega (
      arith,
      lowest_xor (bit_xor x y) y,
      ap (λ (t : ℕ). bit_xor t (y / 2)) half,
      ap (λ (t : ℕ). differ t (y % 2)) low,
      xor_twice_below n (x / 2) (y / 2) (omega arith),
    )

pub xor_twice : (x y : ℕ) → bit_xor (bit_xor x y) y ≡ x
xor_twice x y = xor_twice_below (x + y) x y (omega arith)
