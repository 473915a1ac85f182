-- ===== src/Proto/Http/Cuts.antt =====
-- How far a line or a head of the HTTP handshake (crates/proto/src/http.rs) has used the reads of the
-- socket: whole reads, and the front of one that ends with a newline.
use kanotls.Prelude.{
  ℕ, suc, ◌≡◌, ◌<◌, ◌≤◌, ◌+◌, refl, ap, sym, ◌∙◌, ◌⊎◌, inl, inr, List, [], ◌∷◌, ◌++◌, none, some,
  Option-cases, Bool-cases, append_assoc, take, concat, All, length, arith, ◌==◌,
}
use kanotls.Proto.Http.{newline_at}

-- Bytes with one newline, at their end.
abbrev pub IsLine : List ℕ → Type 0
IsLine bytes = (body : List ℕ) × (newline_at body ≡ none) × (bytes ≡ body ++ (10 ∷ []))

abbrev pub EndsLine : List ℕ → Type 0
EndsLine bytes = (body : List ℕ) × (bytes ≡ body ++ (10 ∷ []))

-- A header line that is not empty.
abbrev pub IsField : List ℕ → Type 0
IsField bytes = IsLine bytes × (2 < length bytes)

-- The bytes that were used of the reads are whole reads and the front of one, of which the rest is left.
abbrev pub IsCut : List (List ℕ) → List ℕ → List (List ℕ) → Type 0
IsCut reads used left =
    (whole : List (List ℕ)) × (front : List ℕ) × (back : List ℕ) × (later : List (List ℕ)) × (left
      ≡ back ∷ later)
    × (reads ≡ whole ++ ((front ++ back) ∷ later))
    × (used ≡ concat whole ++ front)
    × EndsLine front

-- A request line, header lines that are not empty, and an empty one.
abbrev pub IsHead : List ℕ → Type 0
IsHead bytes =
    (request : List ℕ) × (fields : List (List ℕ)) × (last : List ℕ) × IsLine request
    × All IsField fields
    × IsLine last
    × (length last ≤ 2)
    × (bytes ≡ request ++ (concat fields ++ last))

-- Bytes in which no head ends.
abbrev pub IsUnended : List ℕ → Type 0
IsUnended bytes =
    (newline_at bytes ≡ none)
    ⊎ ((request : List ℕ) × (fields : List (List ℕ)) × (partial : List ℕ) × IsLine request
        × All IsField fields
        × (newline_at partial ≡ none)
        × (bytes ≡ request ++ (concat fields ++ partial)))

pub newline_at-append :
    (xs ys : List ℕ) → newline_at xs ≡ none → newline_at ys ≡ none → newline_at (xs ++ ys) ≡ none
newline_at-append [] ys h k = k
newline_at-append (x ∷ xs) ys h k = ground (arith, newline_at-append xs ys)

pub newline_at-IsLine :
    (xs : List ℕ) (pos : ℕ) → newline_at xs ≡ some pos → IsLine (take (pos + 1) xs)
newline_at-IsLine [] pos h = cc
newline_at-IsLine (x ∷ xs) pos h = elim (Bool-cases (x == 10)) [
  | inl here ↦
      let first : pos ≡ 0 = ground arith in
      let e : x ≡ 10 = ground arith in rw (first, e) ([], refl, refl)
  | inr other ↦ elim (Option-cases (newline_at xs)) [
    | inl none_later ↦ absurd (ground arith)
    | inr (n, later) ↦
        let (body, clean, e) = newline_at-IsLine xs n later in
        let next : pos + 1 ≡ suc (n + 1) = ground arith in
        (x ∷ body, rw (other, clean) refl, rw (next) (ap (λ t. x ∷ t) e))
  ]
]

concat-append : (xs ys : List (List ℕ)) → concat (xs ++ ys) ≡ concat xs ++ concat ys
concat-append [] ys = refl
concat-append (x ∷ xs) ys =
    ap (λ t. x ++ t) (concat-append xs ys) ∙ sym (append_assoc x (concat xs) (concat ys))

pub EndsLine-append : (xs ys : List ℕ) → EndsLine ys → EndsLine (xs ++ ys)
EndsLine-append xs ys (body, e) =
    (xs ++ body, ap (λ t. xs ++ t) e ∙ sym (append_assoc xs body (10 ∷ [])))

-- What is used stands in front of what is left.
pub IsCut-concat :
    (reads : List (List ℕ)) (used : List ℕ) (left : List (List ℕ))
    → IsCut reads used left
    → concat reads ≡ used ++ concat left
IsCut-concat reads used left (whole, front, back, later, e, f, g, ends) =
    rw (f, e, g, concat-append whole ((front ++ back) ∷ later)) (simp append_assoc)

pub IsCut-trans :
    (reads : List (List ℕ)) (used : List ℕ) (middle : List (List ℕ)) (more : List ℕ)
    (left : List (List ℕ))
    → IsCut reads used middle
    → IsCut middle more left
    → IsCut reads (used ++ more) left
IsCut-trans reads used middle more left (whole, front, back, later, e, f, g, ends)
      ([], front', back', later', e', f', g', ends') =
    let here : back ≡ front' ++ back' = cc in
    let behind : later ≡ later' = cc in
    (
      whole,
      front ++ front',
      back',
      later',
      e',
      rw (f, here, behind, append_assoc front front' back') refl,
      rw (g, g') (append_assoc (concat whole) front front'),
      EndsLine-append front front' ends',
    )
IsCut-trans reads used middle more left (whole, front, back, later, e, f, g, ends)
      (w ∷ ws, front', back', later', e', f', g', ends') =
    let here : back ≡ w = cc in
    let behind : later ≡ ws ++ ((front' ++ back') ∷ later') = cc in
    (
      whole ++ ((front ++ w) ∷ ws),
      front',
      back',
      later',
      e',
      rw (f, here, behind) (simp append_assoc),
      rw (g, g', concat-append whole ((front ++ w) ∷ ws)) (simp append_assoc),
      ends',
    )
