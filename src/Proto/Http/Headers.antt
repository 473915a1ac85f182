-- ===== src/Proto/Http/Headers.antt =====
-- What a line and the header lines of the HTTP handshake (crates/proto/src/http.rs) use of the reads.
use kanotls.Prelude.{
  ℕ, zero, suc, ◌+◌, ◌≤◌, ◌<◌, ◌≡◌, refl, ap, sym, ◌∙◌, ◌⊎◌, inl, inr, List, [], ◌∷◌, ◌++◌, none,
  Option-cases, Result-cases, ok, err, Bool-cases, ltb, leb, length, take, drop, take-append-drop,
  append_assoc, append-nil, concat, All, arith,
}
use kanotls.Flow.Receive.{saturating_add}
use kanotls.Proto.Utf8.{is_utf8}
use kanotls.Proto.Http.{
  max_request_line, max_header_block, newline_at, read_limited_line, skip_headers,
}
use kanotls.Proto.Http.Cuts.{
  IsLine, IsField, IsCut, newline_at-append, newline_at-IsLine, IsCut-concat, IsCut-trans,
}

pub never {ℓ κ μ} : {E : Type ℓ} {A : Type κ} {B : Type μ} {e : E} {a : A} → err e ≡ ok a → B
never p = cc

-- A line is cut off the reads, or they end without a newline.
abbrev pub IsTaken : List (List ℕ) → List ℕ → List (List ℕ) → Type 0
IsTaken reader bytes rest =
    (IsLine bytes × IsCut reader bytes rest)
    ⊎ ((rest ≡ []) × (bytes ≡ concat reader) × (newline_at bytes ≡ none))

-- A piece without a newline in front of what is taken.
IsTaken-behind :
    (piece : List ℕ) (pieces : List (List ℕ)) (bytes : List ℕ) (rest : List (List ℕ))
    → newline_at piece ≡ none
    → IsTaken pieces bytes rest
    → IsTaken (piece ∷ pieces) (piece ++ bytes) rest
IsTaken-behind piece pieces bytes rest clean
      (inl ((body, none_in, e), (whole, front, back, later, f, g, h, ends))) =
    inl (
      (
        piece ++ body,
        newline_at-append piece body clean none_in,
        rw e (sym (append_assoc piece body (10 ∷ []))),
      ),
      (
        piece ∷ whole,
        front,
        back,
        later,
        f,
        ap (λ t. piece ∷ t) g,
        rw h (sym (append_assoc piece (concat whole) front)),
        ends,
      ),
    )
IsTaken-behind piece pieces bytes rest clean (inr (gone, all, none_in)) =
    inr (gone, ap (λ t. piece ++ t) all, newline_at-append piece bytes clean none_in)

pub read_limited_line-IsTaken :
    (max : ℕ) (line : List ℕ) (reader : List (List ℕ)) (l : List ℕ) (rest : List (List ℕ))
    → read_limited_line max line reader ≡ ok (l, rest)
    → (bytes : List ℕ) × (l ≡ line ++ bytes) × IsTaken reader bytes rest
unfolding read_limited_line
read_limited_line-IsTaken max line [] l rest e =
    let none_left : [] ≡ rest = cc in
    let same : line ≡ l = cc in
    ([], sym same ∙ sym (append-nil line), inr (sym none_left, refl, refl))
read_limited_line-IsTaken max line (piece ∷ pieces) l rest e =
    elim (Option-cases (newline_at piece)) [
      | inl no_end ↦ elim (Bool-cases (ltb max (saturating_add (length line) (length piece)))) [
        | inl long ↦ never (rw (read_limited_line, no_end, long) at e)
        | inr fits ↦ elim (Bool-cases (is_utf8 piece)) [
          | inl text ↦
              let (bytes, same, taken) =
                read_limited_line-IsTaken max (line ++ piece) pieces l rest
                  (rw (read_limited_line, no_end, fits, text) at e) in
              (
                piece ++ bytes,
                same ∙ append_assoc line piece bytes,
                IsTaken-behind piece pieces bytes rest no_end taken,
              )
          | inr bad ↦ never (rw (read_limited_line, no_end, fits, bad) at e)
        ]
      ]
      | inr (pos, at_end) ↦ elim (Bool-cases (ltb max (saturating_add (length line) (pos + 1)))) [
        | inl long ↦ never (rw (read_limited_line, at_end, long) at e)
        | inr fits ↦ elim (Bool-cases (is_utf8 (take (pos + 1) piece))) [
          | inl text ↦
              let found : ok (line ++ take (pos + 1) piece, drop (pos + 1) piece ∷ pieces)
                  ≡ ok (l, rest) =
                rw (read_limited_line, at_end, fits, text) at e in
              let same : line ++ take (pos + 1) piece ≡ l = cc in
              let behind : drop (pos + 1) piece ∷ pieces ≡ rest = cc in
              let (body, clean, ends) = newline_at-IsLine piece pos at_end in
              (
                take (pos + 1) piece,
                sym same,
                inl (
                  (body, clean, ends),
                  (
                    [],
                    take (pos + 1) piece,
                    drop (pos + 1) piece,
                    pieces,
                    sym behind,
                    ap (λ t. t ∷ pieces) (sym (take-append-drop (pos + 1) piece)),
                    refl,
                    (body, ends),
                  ),
                ),
              )
          | inr bad ↦ never (rw (read_limited_line, at_end, fits, bad) at e)
        ]
      ]
    ]

-- The header lines up to an empty one, or to the end of the reads.
abbrev pub IsSkipped : List (List ℕ) → List (List ℕ) → Type 0
IsSkipped reader rest =
    ((fields : List (List ℕ)) × (last : List ℕ) × All IsField fields
      × IsLine last
      × (length last ≤ 2)
      × IsCut reader (concat fields ++ last) rest)
    ⊎ ((rest ≡ [])
        × (fields : List (List ℕ)) × (partial : List ℕ) × All IsField fields
        × (newline_at partial ≡ none)
        × (concat reader ≡ concat fields ++ partial))

-- Nothing is left to be cut.
pub IsSkipped-nil : (rest : List (List ℕ)) → IsSkipped [] rest → rest ≡ []
IsSkipped-nil rest (inl (fields, last, h, k, n, ([], front, back, later, e, f, g, ends))) = cc
IsSkipped-nil rest (inl (fields, last, h, k, n, (w ∷ ws, front, back, later, e, f, g, ends))) = cc
IsSkipped-nil rest (inr skipped) = skipped.0

IsSkipped-behind :
    (reader : List (List ℕ)) (line : List ℕ) (after rest : List (List ℕ))
    → IsField line
    → IsCut reader line after
    → IsSkipped after rest
    → IsSkipped reader rest
IsSkipped-behind reader line after rest field cut (inl (fields, last, all, ends, short, more)) =
    inl (
      line ∷ fields,
      last,
      (field, all),
      ends,
      short,
      rw (append_assoc line (concat fields) last)
          (IsCut-trans reader line after (concat fields ++ last) rest cut more),
    )
IsSkipped-behind reader line after rest field cut (inr (gone, fields, partial, all, clean, e)) =
    inr (
      gone,
      line ∷ fields,
      partial,
      (field, all),
      clean,
      IsCut-concat reader line after cut
          ∙ ap (λ t. line ++ t) e
          ∙ sym (append_assoc line (concat fields) partial),
    )

pub skip_headers-IsSkipped :
    (fuel n : ℕ) (reader rest : List (List ℕ))
    → skip_headers fuel n reader ≡ ok rest
    → IsSkipped reader rest
unfolding skip_headers
skip_headers-IsSkipped zero n reader rest e = cc
skip_headers-IsSkipped (suc fuel) n reader rest e =
    elim (Result-cases (read_limited_line max_request_line [] reader)) [
      | inr (f, bad) ↦ never (rw (skip_headers, bad) at e)
      | inl ((line, after), got) ↦
          let (bytes, same, taken) =
            read_limited_line-IsTaken max_request_line [] reader line after got in
          elim (Bool-cases (leb (length line) 2)) [
            | inl last ↦
                let here : after ≡ rest =
                  let found : ok after ≡ ok rest = rw (skip_headers, got, last) at e in cc in
                rw (← here) (last_line reader bytes after (rw (← same) (ground arith)) taken)
            | inr more ↦ elim (Bool-cases (ltb max_header_block (n + length line))) [
              | inl large ↦ never (rw (skip_headers, got, more, large) at e)
              | inr fits ↦ next_line reader bytes after rest (rw (← same) (ground arith)) taken (
                  skip_headers-IsSkipped fuel (n + length line) after rest
                    (rw (skip_headers, got, more, fits) at e))
            ]
          ]
    ]
  where
    last_line :
        (reader : List (List ℕ)) (bytes : List ℕ) (after : List (List ℕ))
        → length bytes ≤ 2
        → IsTaken reader bytes after
        → IsSkipped reader after
    last_line reader bytes after short (inl (ends, cut)) = inl ([], bytes, tt, ends, short, cut)
    last_line reader bytes after short (inr (gone, all, clean)) =
        inr (gone, [], bytes, tt, clean, sym all)

    next_line :
        (reader : List (List ℕ)) (bytes : List ℕ) (after rest : List (List ℕ))
        → 2 < length bytes
        → IsTaken reader bytes after
        → IsSkipped after rest
        → IsSkipped reader rest
    next_line reader bytes after rest long (inl (ends, cut)) skipped =
        IsSkipped-behind reader bytes after rest (ends, long) cut skipped
    next_line reader bytes after rest long (inr (gone, all, clean)) skipped =
        inr (IsSkipped-nil rest (rw gone at skipped), [], bytes, tt, clean, sym all)
