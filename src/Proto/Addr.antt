-- ===== src/Proto/Addr.antt =====
-- `std::net::SocketAddr` as the sources use it: octets and port, and for IPv6 the flow label and the
-- scope, which no packet carries.
use kanotls.Prelude.{Bool, true, ◌==◌, ◌&&◌, ℕ, zero, suc, ◌≡◌, arith, List, [], ◌∷◌, ◌++◌, length}
use kanotls.Prelude.Bytes.{u16_to_be_bytes, AllBytes, IsByte, IsU16}

pub data SocketAddr : Type 0 where
  -- four octets, port
  v4 : ℕ → ℕ → ℕ → ℕ → ℕ → SocketAddr
  -- sixteen octets, port, flow label, scope
  v6 : List ℕ → ℕ → ℕ → ℕ → SocketAddr

abbrev pub port_of : SocketAddr → ℕ
port_of (v4 a b c d port) = port
port_of (v6 octets port flow scope) = port

abbrev pub all_zero : List ℕ → Bool
all_zero [] = true
all_zero (b ∷ bs) = (b == 0) && all_zero bs

-- The ranges of the parts.
abbrev pub IsAddr : SocketAddr → Type 0
IsAddr (v4 a b c d port) = IsByte a × IsByte b × IsByte c × IsByte d × IsU16 port
IsAddr (v6 octets port flow scope) = AllBytes octets × (length octets ≡ 16) × IsU16 port

-- The address as far as a packet carries it.
abbrev pub plain : SocketAddr → SocketAddr
plain (v4 a b c d port) = v4 a b c d port
plain (v6 octets port flow scope) = v6 octets port 0 0

-- Address type, octets and port, as the UDP packets and the SOCKS5 messages write them.
abbrev pub encoded_addr : SocketAddr → List ℕ
encoded_addr (v4 a b c d port) = 1 ∷ a ∷ b ∷ c ∷ d ∷ u16_to_be_bytes port
encoded_addr (v6 octets port flow scope) = 4 ∷ (octets ++ u16_to_be_bytes port)

-- A property of the lists of length n, shown for the elements by name.
unfoldable pub ForEach : (n : ℕ) (P : List ℕ → Type 0) → Type 0
ForEach zero P = P []
ForEach (suc n) P = (a : ℕ) → ForEach n (λ xs. P (a ∷ xs))

pub by_name : (n : ℕ) (P : List ℕ → Type 0) → ForEach n P → (xs : List ℕ) → length xs ≡ n → P xs
unfolding ForEach
by_name zero P q [] e = q
by_name zero P q (x ∷ xs) e = absurd (omega arith)
by_name (suc n) P q [] e = absurd (omega arith)
by_name (suc n) P q (x ∷ xs) e = by_name n (λ ys. P (x ∷ ys)) (q x) xs (omega arith)
