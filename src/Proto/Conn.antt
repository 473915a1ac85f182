-- ===== src/Proto/Conn.antt =====
-- One end of a TCP connection: what is still to be read until the peer's end of stream, and what was
-- written. A computation gives a value or an error, and the connection as it leaves it.
use kanotls.Prelude.{ℕ, List, [], ◌++◌, if◌then◌else◌, ltb, length, take, drop, Result, ok, err}

pub record Conn : Type 0 where
  pub input : List ℕ
  pub output : List ℕ

abbrev pub Io {ℓ κ} : Type κ → Type ℓ → Type (ℓ ⊔ κ)
Io E A = Conn → Result E A × Conn

abbrev pub resume {ℓ κ μ} :
    {E : Type μ} {A : Type ℓ} {B : Type κ} → (A → Io E B) → Result E A × Conn → Result E B × Conn
resume f (ok a, c) = f a c
resume f (err e, c) = (err e, c)

infixl 5 ◌>>=◌ ◌>>◌
abbrev pub ◌>>=◌ {ℓ κ μ} : {E : Type μ} {A : Type ℓ} {B : Type κ} → Io E A → (A → Io E B) → Io E B
(m >>= f) c = resume f (m c)

abbrev pub ◌>>◌ {ℓ κ μ} : {E : Type μ} {A : Type ℓ} {B : Type κ} → Io E A → Io E B → Io E B
m >> k = m >>= λ _. k

abbrev pub done {ℓ κ} : {E : Type κ} {A : Type ℓ} → A → Io E A
done a c = (ok a, c)

-- `bail!`
abbrev pub bail {ℓ κ} : {E : Type κ} {A : Type ℓ} → E → Io E A
bail e c = (err e, c)

-- `read_exact`: at the end of the stream it fails with the error given, and what it read is gone.
abbrev pub read_exact {κ} : {E : Type κ} → E → ℕ → Io E (List ℕ)
read_exact e n c =
    if ltb (length c.input) n
    then (err e, record c { input = [] })
    else (ok (take n c.input), record c { input = drop n c.input })

-- `write_all` to a peer that still reads.
abbrev pub write_all {κ} : {E : Type κ} → List ℕ → Io E (Unit {0})
write_all bytes c = (ok tt, record c { output = c.output ++ bytes })
