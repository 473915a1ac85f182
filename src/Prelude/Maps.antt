-- ===== src/Prelude/Maps.antt =====
-- A `HashMap<u32, V>` as an association list with each key once. The order of the entries is not
-- observed by the sources that use these.
use Prim.Native.Nat.{ℕ, ◌+◌}
use mathlib.Core.Path.{◌≡◌, refl, ap, subst}
use mathlib.Core.Logic.{inl, inr}
use mathlib.Core.Bool.{Bool, false, ◌||◌}
use mathlib.Core.Option.{Option, none, some}
use mathlib.Core.List.{List, [], ◌∷◌}
use native.Mathlib.Omega.{arith}
use kanotls.Prelude.Tests.{◌==◌, if◌then◌else◌, Bool-cases}

module _ {ℓ} {V : Type ℓ} where
  unfoldable pub lookup : ℕ → List (ℕ × V) → Option V
  lookup key [] = none
  lookup key ((at, value) ∷ others) = if at == key then some value else lookup key others

  unfoldable pub insert : ℕ → V → List (ℕ × V) → List (ℕ × V)
  insert key new [] = (key, new) ∷ []
  insert key new ((at, value) ∷ others) =
      if at == key then (at, new) ∷ others else (at, value) ∷ insert key new others

  unfoldable pub remove : ℕ → List (ℕ × V) → List (ℕ × V)
  remove key [] = []
  remove key ((at, value) ∷ others) = if at == key then others else (at, value) ∷ remove key others

  unfoldable pub has_key : ℕ → List (ℕ × V) → Bool
  has_key key [] = false
  has_key key ((at, value) ∷ others) = at == key || has_key key others

  -- Each key stands once.
  abbrev pub IsMap : List (ℕ × V) → Type 0
  IsMap [] = Unit {0}
  IsMap ((j, v) ∷ m) = (has_key j m ≡ false) × IsMap m

module _ {ℓ} {V : Type ℓ} where
  pub lookup-insert :
      (key asked : ℕ) (new : V) (entries : List (ℕ × V))
      → lookup asked (insert key new entries)
        ≡ (if key == asked then some new else lookup asked entries)
  unfolding lookup insert
  lookup-insert key asked new [] = refl
  lookup-insert key asked new ((at, value) ∷ others) =
      ground (arith, lookup-insert key asked new others)

  pub lookup-no_key : (k : ℕ) (m : List (ℕ × V)) → has_key k m ≡ false → lookup k m ≡ none
  unfolding lookup has_key
  lookup-no_key k [] h = refl
  lookup-no_key k ((i, w) ∷ m) h = ground (arith, lookup-no_key k m)

  pub lookup-key : (k : ℕ) (m : List (ℕ × V)) → lookup k m ≡ none → has_key k m ≡ false
  unfolding lookup has_key
  lookup-key k [] h = refl
  lookup-key k ((i, w) ∷ m) h = ground (arith, lookup-key k m)

  pub lookup-remove :
      (k j : ℕ) (m : List (ℕ × V))
      → IsMap m
      → lookup j (remove k m) ≡ (if k == j then none else lookup j m)
  unfolding lookup remove
  lookup-remove k j [] h = ground arith
  lookup-remove k j ((i, w) ∷ m) h =
      ground (arith, lookup-remove k j m h.1, lookup-no_key i m h.0, ==→ap i k j m)
    where
      ==→ap : (i k j : ℕ) (m : List (ℕ × V)) → i ≡ j → lookup i m ≡ lookup j m
      ==→ap i k j m e = ap (λ (t : ℕ). lookup t m) e

  has_key-insert :
      (k j : ℕ) (v : V) (m : List (ℕ × V)) → has_key j (insert k v m) ≡ (k == j || has_key j m)
  unfolding has_key insert
  has_key-insert k j v [] = refl
  has_key-insert k j v ((i, w) ∷ m) = ground (arith, has_key-insert k j v m)

  has_key-remove :
      (k j : ℕ) (m : List (ℕ × V)) → has_key j m ≡ false → has_key j (remove k m) ≡ false
  unfolding has_key remove
  has_key-remove k j [] h = refl
  has_key-remove k j ((i, w) ∷ m) h = ground (arith, has_key-remove k j m)

  pub insert-IsMap : (k : ℕ) (v : V) (m : List (ℕ × V)) → IsMap m → IsMap (insert k v m)
  unfolding insert
  insert-IsMap k v [] h = (unfold has_key in refl, tt)
  insert-IsMap k v ((i, w) ∷ m) h = ground (arith, has_key-insert k i v m, insert-IsMap k v m h.1)

  pub remove-IsMap : (k : ℕ) (m : List (ℕ × V)) → IsMap m → IsMap (remove k m)
  unfolding remove
  remove-IsMap k [] h = tt
  remove-IsMap k ((i, w) ∷ m) h = ground (arith, has_key-remove k i m, remove-IsMap k m h.1)

-- A sum over the entries.
module _ {ℓ} {V : Type ℓ} (weight : V → ℕ) where
  unfoldable pub sum : List (ℕ × V) → ℕ
  sum [] = 0
  sum ((j, v) ∷ m) = weight v + sum m

  abbrev pub weight_at : ℕ → List (ℕ × V) → ℕ
  weight_at k m = elim (lookup k m) [ none ↦ 0 | some v ↦ weight v ]

  pub sum-insert :
      (k : ℕ) (v : V) (m : List (ℕ × V)) → sum (insert k v m) + weight_at k m ≡ sum m + weight v
  unfolding sum insert lookup
  sum-insert k v [] = omega arith
  sum-insert k v ((i, w) ∷ m) = ground (arith, sum-insert k v m)

  pub sum-remove : (k : ℕ) (m : List (ℕ × V)) → sum (remove k m) + weight_at k m ≡ sum m
  unfolding sum remove lookup
  sum-remove k [] = omega arith
  sum-remove k ((i, w) ∷ m) = ground (arith, sum-remove k m)

-- What holds of every value.
module _ {ℓ κ} {V : Type ℓ} (P : V → Type κ) where
  abbrev pub AllValues : List (ℕ × V) → Type κ
  AllValues [] = Unit {κ}
  AllValues ((j, v) ∷ m) = P v × AllValues m

  pub AllValues-insert :
      (k : ℕ) (v : V) (m : List (ℕ × V)) → P v → AllValues m → AllValues (insert k v m)
  unfolding insert
  AllValues-insert k v [] p h = (p, tt)
  AllValues-insert k v ((i, w) ∷ m) p h = elim (Bool-cases (i == k)) [
    | inl e ↦ rw e (p, h.1)
    | inr e ↦ rw e (h.0, AllValues-insert k v m p h.1)
  ]

  pub AllValues-remove : (k : ℕ) (m : List (ℕ × V)) → AllValues m → AllValues (remove k m)
  unfolding remove
  AllValues-remove k [] h = tt
  AllValues-remove k ((i, w) ∷ m) h = elim (Bool-cases (i == k)) [
    | inl e ↦ rw e h.1
    | inr e ↦ rw e (h.0, AllValues-remove k m h.1)
  ]

  pub AllValues-lookup :
      (k : ℕ) (v : V) (m : List (ℕ × V)) → AllValues m → lookup k m ≡ some v → P v
  unfolding lookup
  AllValues-lookup k v [] h e = cc
  AllValues-lookup k v ((i, w) ∷ m) h e = elim (Bool-cases (i == k)) [
    | inl hit ↦ let p : w ≡ v = ground arith in subst P p h.0
    | inr miss ↦ AllValues-lookup k v m h.1 (ground arith)
  ]
