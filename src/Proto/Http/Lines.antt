-- ===== src/Proto/Http/Lines.antt =====
-- What the handshake leaves for the relay.
use kanotls.Prelude.{
  ℕ, ◌≡◌, refl, ap, ◌∙◌, ◌⊎◌, inl, inr, List, [], ◌∷◌, ◌++◌, Result, Result-cases, ok, err,
  Bool-cases, ltb, length, concat,
}
use kanotls.Proto.Http.{
  HttpError, max_request_line, max_header_block, read_limited_line, skip_headers, split_whitespace,
  serve_connect, connect_to, parse_connect_target, without_buffer, is_connect, http_handshake,
}
use kanotls.Proto.Http.Cuts.{EndsLine, IsCut, IsHead, IsUnended, IsCut-concat, IsCut-trans}
use kanotls.Proto.Http.Headers.{
  never, IsTaken, IsSkipped, read_limited_line-IsTaken, IsSkipped-nil, skip_headers-IsSkipped,
}

connect_to-left :
    (reader : List (List ℕ)) (t : Result HttpError (List ℕ × ℕ)) (host : List ℕ) (port : ℕ)
    (left : List (List ℕ))
    → connect_to reader t ≡ ok (host, port, left)
    → left ≡ without_buffer reader
connect_to-left reader (ok (h, p)) host port left e = cc
connect_to-left reader (err f) host port left e = cc

serve_connect-left :
    (parts : List (List ℕ)) (headers : Result HttpError (List (List ℕ))) (host : List ℕ) (port : ℕ)
    (left : List (List ℕ))
    → (serve_connect parts headers).1 ≡ ok (host, port, left)
    → (reader : List (List ℕ)) × (headers ≡ ok reader) × (left ≡ without_buffer reader)
unfolding serve_connect
serve_connect-left [] (ok r) host port left e = cc
serve_connect-left (m ∷ []) (ok r) host port left e = cc
serve_connect-left [] (err f) host port left e = cc
serve_connect-left (m ∷ []) (err f) host port left e = cc
serve_connect-left (m ∷ (t ∷ more)) (err f) host port left e = cc
serve_connect-left (m ∷ (t ∷ more)) (ok r) host port left e = elim (Bool-cases (is_connect m)) [
  | inl connect ↦ (
    r,
    refl,
    connect_to-left r (parse_connect_target t) host port left (rw (serve_connect, connect) at e),
  )
  | inr other ↦ never (rw (serve_connect, other) at e)
]

-- The reads that the relay gets: those behind the read in which the head ends, or none if the reads
-- ended before a head did.
abbrev pub IsLeft : List (List ℕ) → List (List ℕ) → Type 0
IsLeft reads left =
    ((whole : List (List ℕ)) × (front : List ℕ) × (lost : List ℕ) × (reads
        ≡ whole ++ ((front ++ lost) ∷ left))
      × EndsLine front
      × IsHead (concat whole ++ front))
    ⊎ ((left ≡ []) × IsUnended (concat reads))

-- The reader begins with nothing buffered.
IsCut-start :
    (reads : List (List ℕ)) (head : List ℕ) (rest : List (List ℕ))
    → IsHead head
    → IsCut ([] ∷ reads) head rest
    → IsLeft reads (without_buffer rest)
IsCut-start reads head rest h ([], front, back, later, e, f, g, (body, ends)) =
    let empty : [] ≡ front ++ back = cc in absurd (not_empty body back (rw ends at empty))
  where
    not_empty : (body back : List ℕ) → ¬ ([] ≡ (body ++ (10 ∷ [])) ++ back)
    not_empty [] back e = cc
    not_empty (b ∷ bs) back e = cc
IsCut-start reads head rest h (w ∷ whole, front, back, later, e, f, g, ends) =
    let none_first : w ≡ [] = cc in
    let same : reads ≡ whole ++ ((front ++ back) ∷ later) = cc in
    inl (
      whole,
      front,
      back,
      rw e same,
      ends,
      (let used : head ≡ concat whole ++ front = rw none_first at g in rw used at h),
    )

head-IsLeft :
    (reads : List (List ℕ)) (line : List ℕ) (rest reader : List (List ℕ))
    → IsTaken ([] ∷ reads) line rest
    → IsSkipped rest reader
    → IsLeft reads (without_buffer reader)
head-IsLeft reads line rest reader (inl (ends, cut))
      (inl (fields, last, all, last_ends, short, more)) =
    IsCut-start reads (line ++ (concat fields ++ last)) reader
      (line, fields, last, ends, all, last_ends, short, refl)
      (IsCut-trans ([] ∷ reads) line rest (concat fields ++ last) reader cut more)
head-IsLeft reads line rest reader (inl (ends, cut)) (inr (gone, fields, partial, all, clean, e)) =
    inr (
      ap without_buffer gone,
      inr (
        line,
        fields,
        partial,
        ends,
        all,
        clean,
        IsCut-concat ([] ∷ reads) line rest cut ∙ ap (λ t. line ++ t) e,
      ),
    )
head-IsLeft reads line rest reader (inr (gone, all, clean)) skipped =
    inr (ap without_buffer (IsSkipped-nil reader (rw gone at skipped)), inl (rw all at clean))

-- An HTTP handshake that succeeds leaves for the relay exactly the reads of the socket behind the
-- one in which the head ends, that is the request line, header lines of more than two bytes, and a
-- line of at most two bytes; what else that read brought is lost. If the reads end before a head
-- does, nothing is left.
pub http_handshake-IsLeft :
    (reads : List (List ℕ)) (host : List ℕ) (port : ℕ) (left : List (List ℕ))
    → (http_handshake reads).1 ≡ ok (host, port, left)
    → IsLeft reads left
unfolding http_handshake
http_handshake-IsLeft reads host port left e =
    elim (Result-cases (read_limited_line max_request_line [] ([] ∷ reads))) [
      | inr (f, bad) ↦ never (rw (http_handshake, bad) at e)
      | inl ((line, rest), got) ↦
          let (bytes, first, taken) =
            read_limited_line-IsTaken max_request_line [] ([] ∷ reads) line rest got in
          let parts = split_whitespace 0 [] line in
          elim (Bool-cases (ltb (length parts) 3)) [
            | inl few ↦ never (rw (http_handshake, got, few) at e)
            | inr enough ↦
                let (reader, found, same) =
                  serve_connect-left parts (skip_headers max_header_block (length line) rest) host
                    port left (rw (http_handshake, got, enough) at e) in
                rw same (
                  head-IsLeft reads bytes rest reader taken
                    (skip_headers-IsSkipped max_header_block (length line) rest reader found))
          ]
    ]
