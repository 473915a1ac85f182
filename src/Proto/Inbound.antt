-- ===== src/Proto/Inbound.antt =====
-- crates/proto/src/inbound.rs: the kinds of inbound protocols and their names.
use kanotls.Prelude.{
  ℕ, ◌≡◌, refl, List, [], ◌∷◌, Option, none, some, Bool, true, false, if◌then◌else◌, ◌==◌, ◌&&◌,
  ◌||◌,
}

pub data InboundKind : Type 0 where
  socks5 : InboundKind
  http : InboundKind

abbrev same_text : List ℕ → List ℕ → Bool
same_text [] [] = true
same_text [] (y ∷ ys) = false
same_text (x ∷ xs) [] = false
same_text (x ∷ xs) (y ∷ ys) = (x == y) && same_text xs ys

-- "socks5" or "http"
unfoldable pub as_str : InboundKind → List ℕ
as_str socks5 = 115 ∷ 111 ∷ 99 ∷ 107 ∷ 115 ∷ 53 ∷ []
as_str http = 104 ∷ 116 ∷ 116 ∷ 112 ∷ []

-- The short name "socks" is taken, too.
unfoldable pub from_protocol : List ℕ → Option InboundKind
unfolding as_str
from_protocol protocol =
    if same_text protocol (as_str socks5) || same_text protocol (115 ∷ 111 ∷ 99 ∷ 107 ∷ 115 ∷ [])
    then some socks5
    else if same_text protocol (as_str http)
    then some http
    else none

-- Each kind is found by its name.
from_protocol-as_str : (kind : InboundKind) → from_protocol (as_str kind) ≡ some kind
unfolding from_protocol as_str
from_protocol-as_str socks5 = refl
from_protocol-as_str http = refl
