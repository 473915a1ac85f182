-- ===== src/Proto/Target/Authority.antt =====
-- What is written as an authority is parsed back.
use kanotls.Prelude.{
  ℕ, zero, suc, ◌+◌, ◌*◌, ◌/◌, ◌%◌, ◌≤◌, ◌<◌, ◌≡◌, ◌≢◌, refl, ap, ◌∙◌, List, [], ◌∷◌, ◌++◌, All,
  none, some, ok, err, Bool, true, false, if◌then◌else◌, ◌==◌, ◌&&◌, not, length, arith,
}
use kanotls.Proto.Target.{
  authority, decimal, digits_before, parse_digits, parse_u16, split_once, rsplit_once,
  parse_authority, port_0, checked_port, parse_plain, parse_behind_bracket,
}

abbrev IsDigit : ℕ → Type 0
IsDigit c = (48 ≤ c) × (c < 58)

digits_before-IsDigit :
    (fuel n : ℕ) (tail : List ℕ) → All IsDigit tail → All IsDigit (digits_before fuel n tail)
digits_before-IsDigit zero n tail h = ((omega arith, omega arith), h)
digits_before-IsDigit (suc fuel) n tail h =
    let more =
      digits_before-IsDigit fuel (n / 10) ((48 + n % 10) ∷ tail) ((omega arith, omega arith), h) in
    ground (arith, more)

pow10 : ℕ → ℕ
pow10 zero = 1
pow10 (suc k) = 10 * pow10 k

parse_digits-before :
    (fuel n : ℕ) (tail : List ℕ)
    → n < 65536
    → n < 10 * pow10 fuel
    → parse_digits 0 (digits_before fuel n tail) ≡ parse_digits n tail
unfolding pow10
parse_digits-before zero n tail h f = ground arith
parse_digits-before (suc fuel) n tail h f =
    let more =
      parse_digits-before fuel (n / 10) ((48 + n % 10) ∷ tail) (omega arith) (omega arith) in
    ground (arith, more)

parse_u16-digits : (xs : List ℕ) → All IsDigit xs → xs ≢ [] → parse_u16 xs ≡ parse_digits 0 xs
unfolding parse_u16
parse_u16-digits [] h k = absurd (k refl)
parse_u16-digits (c ∷ []) h k = refl
parse_u16-digits (c ∷ (d ∷ ds)) h k = ground arith

digits_before_filled : (fuel n : ℕ) (tail : List ℕ) → 0 < length (digits_before fuel n tail)
digits_before_filled zero n tail = omega arith
digits_before_filled (suc fuel) n tail =
    let more = digits_before_filled fuel (n / 10) ((48 + n % 10) ∷ tail) in ground (arith, more)

filled_lem : (xs : List ℕ) → 0 < length xs → xs ≢ []
filled_lem [] h e = absurd (omega arith)
filled_lem (x ∷ xs) h e = absurd (omega (arith, ap length e))

decimal-IsDigit : (n : ℕ) → All IsDigit (decimal n)
unfolding decimal
decimal-IsDigit n = digits_before-IsDigit 4 n [] tt

-- A port's digits are read as the port.
parse_u16-decimal : (n : ℕ) → n < 65536 → parse_u16 (decimal n) ≡ some n
unfolding decimal pow10
parse_u16-decimal n h =
    parse_u16-digits (decimal n) (decimal-IsDigit n)
      (filled_lem (decimal n) (digits_before_filled 4 n []))
    ∙ parse_digits-before 4 n [] h (omega arith)

split_once-append :
    (b : ℕ) (xs ys : List ℕ) → All (λ c. c ≢ b) xs → split_once b (xs ++ (b ∷ ys)) ≡ some (xs, ys)
split_once-append b [] ys h = ground arith
split_once-append b (x ∷ xs) ys h =
    let more = split_once-append b xs ys h.1 in ground (arith, more, h.0)

rsplit_once-digits : (xs : List ℕ) → All IsDigit xs → rsplit_once 58 xs ≡ none
rsplit_once-digits [] h = refl
rsplit_once-digits (x ∷ xs) h = let more = rsplit_once-digits xs h.1 in ground (arith, more)

rsplit_once-append :
    (xs ys : List ℕ) → All IsDigit ys → rsplit_once 58 (xs ++ (58 ∷ ys)) ≡ some (xs, ys)
rsplit_once-append [] ys h = let more = rsplit_once-digits ys h in ground (arith, more)
rsplit_once-append (x ∷ xs) ys h = let more = rsplit_once-append xs ys h in ground (arith, more)

-- A host's text that can be written: in brackets it has no closing bracket, and without brackets it is
-- not empty and does not begin with an opening one.
abbrev pub IsHostText : Bool → List ℕ → Type 0
IsHostText true host = All (λ c. c ≢ 93) host
IsHostText false [] = ⊥
IsHostText false (c ∷ cs) = c ≢ 91

parse_authority-plain :
    (c : ℕ) (cs digits : List ℕ) (allow_zero_port : Bool)
    → c ≢ 91
    → All IsDigit digits
    → parse_authority ((c ∷ cs) ++ (58 ∷ digits)) allow_zero_port
      ≡ checked_port allow_zero_port (c ∷ cs) (parse_u16 digits)
unfolding parse_authority parse_plain
parse_authority-plain c cs digits allow_zero_port h k =
    let e = rsplit_once-append (c ∷ cs) digits k in ground (arith, e)

-- The authority of a host and a port of 16 bits is parsed to the same host and port, if the host in
-- brackets has no closing bracket, and the host without brackets is not empty and does not begin
-- with a bracket; except that port 0 is refused where it is not allowed.
pub parse_authority-authority :
    (bracketed allow_zero_port : Bool) (host : List ℕ) (port : ℕ)
    → IsHostText bracketed host
    → port < 65536
    → parse_authority (authority bracketed host port) allow_zero_port
      ≡ (if (port == 0) && not allow_zero_port then err port_0 else ok (host, port))
unfolding parse_authority authority parse_behind_bracket
parse_authority-authority true allow_zero_port host port h p =
    rw (split_once-append 93 host (58 ∷ decimal port) h, parse_u16-decimal port p) refl
parse_authority-authority false allow_zero_port [] port h p = absurd h
parse_authority-authority false allow_zero_port (c ∷ cs) port h p =
    parse_authority-plain c cs (decimal port) allow_zero_port h (decimal-IsDigit port)
    ∙ ap (checked_port allow_zero_port (c ∷ cs)) (parse_u16-decimal port p)
