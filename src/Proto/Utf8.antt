-- ===== src/Proto/Utf8.antt =====
-- `String::from_utf8` and `str::from_utf8`: which bytes are a string. The first byte of a character fixes
-- how many follow, and for some first bytes the range of the second.
use kanotls.Prelude.{
  ℕ, zero, suc, List, [], ◌∷◌, Option, none, some, Bool, true, false, if◌then◌else◌, ◌&&◌, leb, ltb,
}

pub data Utf8State : Type 0 where
  between : Utf8State
  -- this many bytes follow, and the next one stands in a range
  within : ℕ → ℕ → ℕ → Utf8State

abbrev pub first_byte : ℕ → Option Utf8State
first_byte b =
    if ltb b 128
    then some between
    else if ltb b 194
    then none
    else if ltb b 224
    then some (within 0 128 191)
    else if ltb b 225
    then some (within 1 160 191)
    else if ltb b 237
    then some (within 1 128 191)
    else if ltb b 238
    then some (within 1 128 159)
    else if ltb b 240
    then some (within 1 128 191)
    else if ltb b 241
    then some (within 2 144 191)
    else if ltb b 244
    then some (within 2 128 191)
    else if ltb b 245
    then some (within 2 128 143)
    else none

abbrev pub next_byte : Utf8State → ℕ → Option Utf8State
next_byte between b = first_byte b
next_byte (within zero low high) b = if leb low b && leb b high then some between else none
next_byte (within (suc n) low high) b =
    if leb low b && leb b high then some (within n 128 191) else none

abbrev pub ends : Option Utf8State → List ℕ → Bool
ends none bs = false
ends (some between) [] = true
ends (some (within n low high)) [] = false
ends (some s) (b ∷ bs) = ends (next_byte s b) bs

unfoldable pub is_utf8 : List ℕ → Bool
is_utf8 bs = ends (some between) bs
