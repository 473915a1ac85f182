-- ===== src/Tunnel/Auth/Layout.antt =====
-- What is written into a ClientHello is found there by the reader of the ranges.
use kanotls.Prelude.{
  ℕ, zero, suc, ◌+◌, ◌-◌, ◌≤◌, ◌≡◌, refl, sym, ap, ◌∙◌, List, [], ◌∷◌, ◌++◌, Option, none, some,
  false, if◌then◌else◌, ltb, ◌==◌, not, arith, min, length, get_or, take, drop, length-append,
  length-take, length-drop, take-append, drop-append, take-append-drop, get_or-append, append_assoc,
  List-cases, inl, inr,
}
use kanotls.Prelude.Bits.{xor_twice}
use kanotls.Tunnel.Auth.{xor_bytes, slice, client_hello_random_and_session_id_ranges, write_at}

pub length-xor_bytes : (xs ys : List ℕ) → length (xor_bytes xs ys) ≡ min (length xs) (length ys)
unfolding xor_bytes
length-xor_bytes [] ys = omega arith
length-xor_bytes (x ∷ xs) [] = omega arith
length-xor_bytes (x ∷ xs) (y ∷ ys) = omega (arith, length-xor_bytes xs ys)

-- The same mask takes the mask off.
pub xor_bytes_twice : (xs ys : List ℕ) → length xs ≤ length ys → xor_bytes (xor_bytes xs ys) ys ≡ xs
unfolding xor_bytes
xor_bytes_twice [] ys h = refl
xor_bytes_twice (x ∷ xs) [] h = absurd (omega arith)
xor_bytes_twice (x ∷ xs) (y ∷ ys) h =
    ap (λ (t : ℕ). t ∷ xor_bytes (xor_bytes xs ys) ys) (xor_twice x y)
    ∙ ap (◌∷◌ x) (xor_bytes_twice xs ys (omega arith))

pub get_or-behind :
    (n i : ℕ) (xs ys : List ℕ) (d : ℕ) → length xs ≡ n → get_or (xs ++ ys) (n + i) d ≡ get_or ys i d
get_or-behind zero i [] ys d h = ap (λ (k : ℕ). get_or ys k d) (omega arith)
get_or-behind zero i (x ∷ xs) ys d h = absurd (omega arith)
get_or-behind (suc n) i [] ys d h = absurd (omega arith)
get_or-behind (suc n) i (x ∷ xs) ys d h =
    ap (λ (k : ℕ). get_or (x ∷ (xs ++ ys)) k d) (let e : suc n + i ≡ suc (n + i) = omega arith in e)
    ∙ get_or-behind n i xs ys d (omega arith)

-- A new middle of the old one's length takes its place.
pub write_at-middle :
    (start : ℕ) (front old new back : List ℕ)
    → length front ≡ start
    → length old ≡ length new
    → write_at start new (front ++ (old ++ back)) ≡ front ++ (new ++ back)
write_at-middle start front old new back e f =
    let behind : drop (start + length new) (front ++ (old ++ back)) ≡ back =
      ap (drop (start + length new)) (sym (append_assoc front old back))
      ∙ drop-append (start + length new) (front ++ old) back
          (omega (arith, length-append {0} front old)) in
    ap (λ t. t ++ (new ++ drop (start + length new) (front ++ (old ++ back))))
      (take-append start front (old ++ back) e)
    ∙ ap (λ t. front ++ (new ++ t)) behind

-- The tests on the bytes 0 and 5, the size and the length of the session id.
abbrev pub tests : ℕ → ℕ → ℕ → ℕ → Option ((ℕ × ℕ) × (ℕ × ℕ))
tests x y n len =
    if not (x == 0x16)
    then none
    else if not (y == 0x01)
    then none
    else if ltb n (44 + len)
    then none
    else some ((11, 43), (44, 44 + len))

-- The record with its two fields: 11 bytes, the random, the length of the session id, 32 bytes of it.
abbrev pub hello : List ℕ → List ℕ → ℕ → List ℕ → List ℕ → List ℕ
hello front random len session_id back = front ++ (random ++ len ∷ (session_id ++ back))

module _ (front random : List ℕ) (len : ℕ) (session_id back : List ℕ)
    (front_len : length front ≡ 11) (random_len : length random ≡ 32)
    (session_len : length session_id ≡ 32) where
  pub slice-random : slice (11, 43) (hello front random len session_id back) ≡ random
  slice-random =
      ap (take 32) (drop-append 11 front (random ++ len ∷ (session_id ++ back)) front_len)
      ∙ take-append 32 random (len ∷ (session_id ++ back)) random_len

  pub at_len : drop 44 (hello front random len session_id back) ≡ session_id ++ back
  at_len =
      ap (drop 44) (
        sym (append_assoc front random (len ∷ (session_id ++ back)))
        ∙ sym (append_assoc (front ++ random) (len ∷ []) (session_id ++ back)))
      ∙ drop-append 44 ((front ++ random) ++ len ∷ []) (session_id ++ back) (
          omega
            (arith, length-append {0} front random, length-append {0} (front ++ random) (len ∷ [])))

  hello_size : length (hello front random len session_id back) ≡ 76 + length back
  hello_size = omega (
    arith,
    length-append {0} front (random ++ len ∷ (session_id ++ back)),
    length-append {0} random (len ∷ (session_id ++ back)),
    length-append {0} session_id back,
  )

  -- What the ranges depend on.
  pub ranges-hello :
      client_hello_random_and_session_id_ranges (hello front random len session_id back)
      ≡ tests (get_or front 0 0) (get_or front 5 0) (76 + length back) len
  unfolding client_hello_random_and_session_id_ranges
  ranges-hello =
      let behind : List ℕ = random ++ len ∷ (session_id ++ back) in
      let at_0 = get_or-append front behind 0 0 (omega arith) in
      let at_5 = get_or-append front behind 5 0 (omega arith) in
      let at_43 : get_or (hello front random len session_id back) 43 0 ≡ len =
        get_or-behind 11 32 front behind 0 front_len
        ∙ get_or-behind 32 0 random (len ∷ (session_id ++ back)) 0 random_len in
      let long : ltb (76 + length back) (5 + 44) ≡ false = ground arith in
      rw (client_hello_random_and_session_id_ranges, at_0, at_5, at_43, hello_size, long) refl

-- A record in which the two ranges are found, with room for 32 bytes of session id, has the layout.
pub record Laid (out : List ℕ) : Type 0 where
  pub front : List ℕ
  pub random : List ℕ
  pub len : ℕ
  pub session_id : List ℕ
  pub back : List ℕ
  pub front_len : length front ≡ 11
  pub random_len : length random ≡ 32
  pub session_len : length session_id ≡ 32
  pub laid : out ≡ hello front random len session_id back

pub lays : (out : List ℕ) → 76 ≤ length out → Laid out
lays out long =
    let front = take 11 out in
    let behind = drop 11 out in
    let size = length-drop 11 out in
    let behind_size = length-drop 32 behind in
    elim (List-cases (drop 32 behind)) [
      | inl nothing ↦ absurd (omega (arith, ap length nothing))
      | inr (len, rest, there) ↦
          let rest_size : length rest ≡ length out - 44 = omega (arith, ap length there) in
          record {
            front = front;
            random = take 32 behind;
            len = len;
            session_id = take 32 rest;
            back = drop 32 rest;
            front_len = omega (arith, length-take 11 out);
            random_len = omega (arith, length-take 32 behind);
            session_len = omega (arith, length-take 32 rest);
            laid =
                sym (take-append-drop 11 out)
                ∙ ap (λ t. front ++ t) (sym (take-append-drop 32 behind))
                ∙ ap (λ t. front ++ (take 32 behind ++ t)) there
                ∙ ap (λ t. front ++ (take 32 behind ++ len ∷ t)) (sym (take-append-drop 32 rest));
          }
    ]

pub ranges_fit :
    (out : List ℕ) (random_range session_range : ℕ × ℕ)
    → client_hello_random_and_session_id_ranges out ≡ some (random_range, session_range)
    → 32 ≤ session_range.1 - session_range.0
    → 76 ≤ length out
unfolding client_hello_random_and_session_id_ranges
ranges_fit out random_range session_range e long = ground arith

take-beyond :
    (n : ℕ) (xs ys : List ℕ) → length xs ≤ n → take n (xs ++ ys) ≡ xs ++ take (n - length xs) ys
take-beyond n [] ys h = ap (λ (k : ℕ). take k ys) (let e : n ≡ n - 0 = omega arith in e)
take-beyond zero (x ∷ xs) ys h = absurd (omega arith)
take-beyond (suc n) (x ∷ xs) ys h =
    ap (◌∷◌ x) (take-beyond n xs ys (omega arith))
    ∙ ap (λ (k : ℕ). x ∷ (xs ++ take k ys))
        (let e : n - length xs ≡ suc n - suc (length xs) = omega arith in e)

pub slice-session :
    (front random : List ℕ) (len : ℕ) (session_id back : List ℕ)
    → length front ≡ 11
    → length random ≡ 32
    → length session_id ≡ 32
    → 32 ≤ len
    → slice (44, 44 + len) (hello front random len session_id back)
      ≡ session_id ++ take (len - 32) back
slice-session front random len session_id back f r s long =
    ap (take (44 + len - 44)) (at_len front random len session_id back f r s)
    ∙ take-beyond (44 + len - 44) session_id back (omega arith)
    ∙ ap (λ (k : ℕ). session_id ++ take k back)
        (let e : 44 + len - 44 - length session_id ≡ len - 32 = omega arith in e)

ranges_of_tests :
    (x y n len : ℕ) (random_range session_range : ℕ × ℕ)
    → tests x y n len ≡ some (random_range, session_range)
    → (tests x y n len ≡ some ((11, 43), (44, 44 + len)))
      × (session_range.1 - session_range.0 ≡ len)
ranges_of_tests x y n len random_range session_range e = ground arith

-- The ranges stay what they are when the two fields are written.
pub ranges_kept :
    (out : List ℕ) (l : Laid out) (random_range session_range : ℕ × ℕ) (random session_id : List ℕ)
    → length random ≡ 32
    → length session_id ≡ 32
    → client_hello_random_and_session_id_ranges out ≡ some (random_range, session_range)
    → (client_hello_random_and_session_id_ranges out ≡ some ((11, 43), (44, 44 + l.len)))
      × (client_hello_random_and_session_id_ranges (hello l.front random l.len session_id l.back)
          ≡ some ((11, 43), (44, 44 + l.len)))
      × (session_range.1 - session_range.0 ≡ l.len)
ranges_kept out l random_range session_range random session_id r s found =
    let now =
      ap client_hello_random_and_session_id_ranges l.laid
      ∙ ranges-hello l.front l.random l.len l.session_id l.back l.front_len l.random_len
          l.session_len in
    let (tests, long) =
      ranges_of_tests (get_or l.front 0 0) (get_or l.front 5 0) (76 + length l.back) l.len
        random_range session_range (sym now ∙ found) in
    (now ∙ tests, ranges-hello l.front random l.len session_id l.back l.front_len r s ∙ tests, long)
