-- ===== src/Tunnel/Plain/Turns.antt =====
-- What a step of `poll_read` keeps: the bytes that the caller has, followed by those to come.
use kanotls.Prelude.{
  ℕ, zero, suc, ◌+◌, ◌-◌, ◌*◌, ◌≤◌, ◌<◌, ◌≡◌, refl, sym, ap, ◌∙◌, ◌⊎◌, inl, inr, List, [], ◌∷◌,
  ◌++◌, true, false, Bool-cases, if◌then◌else◌, ltb, leb, ◌==◌, arith, length, take, drop, min,
  length-append, length-drop, length-take, take-append-drop, append_assoc, ltb→le,
}
use kanotls.Tunnel.Noise.{Noise}
use kanotls.Tunnel.Reading.{
  SnowyReadHalf, Turn, outer, inner, returns, Status, ready, pending, invalid_data, unexpected_eof,
  read_failed, out_of_fuel, copied, at_outer, coming,
}
use kanotls.Tunnel.Plain.{stream_of}

-- The bytes that are still to be handed over.
abbrev pub unread : Noise → SnowyReadHalf → List ℕ
unread noise r =
    if r.closed
    then []
    else drop r.read_offset r.read_buf_inner
      ++ stream_of noise r.nonce (drop r.tls_rx_offset r.tls_rx_buf ++ coming r.socket)

abbrev pub all_bytes : Noise → SnowyReadHalf → List ℕ
all_bytes noise r = r.filled ++ unread noise r

-- The offsets lie in their buffers, the caller's buffer has the room that it says, and `progress` says
-- whether something is in it.
pub record IsReading (capacity : ℕ) (r : SnowyReadHalf) : Type 0 where
  pub inner_fits : r.read_offset ≤ length r.read_buf_inner
  pub rx_fits : r.tls_rx_offset ≤ length r.tls_rx_buf
  pub room : length r.filled + r.remaining ≡ capacity
  pub moved : r.progress ≡ ltb 0 (length r.filled)

abbrev pub cost : SnowyReadHalf → ℕ
cost r =
    2 * (length (drop r.tls_rx_offset r.tls_rx_buf) + length (coming r.socket) + length r.socket)

-- Nothing decrypted waits.
abbrev pub IsDrained : SnowyReadHalf → Type 0
IsDrained r = length r.read_buf_inner ≤ r.read_offset

-- What a status says: a call that is ready has given bytes or has seen the end; one that waits has
-- given none, and leaves nothing but what the socket has yet to give; the socket's failure and its
-- end in a record come with no bytes given; and the fuel does not run out.
abbrev pub Ends : Noise → Status → SnowyReadHalf → Type 0
Ends noise ready r = (r.closed ≡ true) ⊎ (0 < length r.filled)
Ends noise pending r = (r.filled ≡ []) × (r.socket ≡ [] → unread noise r ≡ [])
Ends noise unexpected_eof r = r.filled ≡ []
Ends noise read_failed r = r.filled ≡ []
Ends noise invalid_data r = Unit {0}
Ends noise out_of_fuel r = ⊥

-- The bytes `bs` and at most `budget` of work are kept by the step.
abbrev pub Keeps : Noise → ℕ → List ℕ → ℕ → Turn → Type 0
Keeps noise capacity bs budget (outer r) =
    IsReading capacity r × (r.closed ≡ false) × (all_bytes noise r ≡ bs) × (cost r + 2 ≤ budget)
Keeps noise capacity bs budget (inner r) =
    IsReading capacity r
    × (r.closed ≡ false)
    × (all_bytes noise r ≡ bs)
    × (cost r + 1 ≤ budget)
    × IsDrained r
Keeps noise capacity bs budget (returns st r) =
    IsReading capacity r × (all_bytes noise r ≡ bs) × Ends noise st r

module _ {ℓ} {A : Type ℓ} where
  pub drop-all : (n : ℕ) (xs : List A) → length xs ≤ n → drop n xs ≡ []
  drop-all zero [] h = refl
  drop-all zero (x ∷ xs) h = absurd (omega arith)
  drop-all (suc n) [] h = refl
  drop-all (suc n) (x ∷ xs) h = drop-all n xs (omega arith)

  pub drop-drop : (m n : ℕ) (xs : List A) → drop n (drop m xs) ≡ drop (m + n) xs
  drop-drop zero n xs = let e : n ≡ 0 + n = omega arith in ap (λ (k : ℕ). drop k xs) e
  drop-drop (suc m) n [] = drop-all n [] (omega arith) ∙ sym (drop-all (suc m + n) [] (omega arith))
  drop-drop (suc m) n (x ∷ xs) =
      drop-drop m n xs
      ∙ ap (λ (k : ℕ). drop k (x ∷ xs)) (let e : suc (m + n) ≡ suc m + n = omega arith in e)

  -- What is taken off the front, and what stays.
  moves :
      (front xs back : List A) (n : ℕ)
      → (front ++ take n xs) ++ (drop n xs ++ back) ≡ front ++ (xs ++ back)
  moves front xs back n =
      append_assoc front (take n xs) (drop n xs ++ back)
      ∙ ap (λ t. front ++ t) (sym (append_assoc (take n xs) (drop n xs) back))
      ∙ ap (λ t. front ++ (t ++ back)) (take-append-drop n xs)

copied_rest :
    (r : SnowyReadHalf)
    → drop (copied r).read_offset (copied r).read_buf_inner
      ≡ drop
          (min (length r.read_buf_inner - r.read_offset) r.remaining)
          (drop r.read_offset r.read_buf_inner)
copied_rest r =
    let n = min (length r.read_buf_inner - r.read_offset) r.remaining in
    elim (Bool-cases (leb (length r.read_buf_inner) (r.read_offset + n))) [
      | inl e ↦ rw e (
          sym (
            drop-all n (drop r.read_offset r.read_buf_inner)
              (ground (arith, length-drop r.read_offset r.read_buf_inner))))
      | inr e ↦ rw e (sym (drop-drop r.read_offset n r.read_buf_inner))
    ]

copied_bytes :
    (noise : Noise) (r : SnowyReadHalf)
    → r.closed ≡ false
    → all_bytes noise (copied r) ≡ all_bytes noise r
copied_bytes noise r open' =
    rw (open', copied_rest r)
      (moves r.filled (drop r.read_offset r.read_buf_inner)
        (stream_of noise r.nonce (drop r.tls_rx_offset r.tls_rx_buf ++ coming r.socket))
        (min (length r.read_buf_inner - r.read_offset) r.remaining))

module _ (noise : Noise) (capacity : ℕ) (some_room : 0 < capacity) where
  copied-IsReading :
      (r : SnowyReadHalf)
      → IsReading capacity r
      → ltb r.read_offset (length r.read_buf_inner) ≡ true
      → IsReading capacity (copied r)
        × (0 < length (copied r).filled)
        × ((copied r).remaining == 0 ≡ false → IsDrained (copied r))
  copied-IsReading r h waits =
      let n = min (length r.read_buf_inner - r.read_offset) r.remaining in
      ground (
        arith,
        length-append {0} r.filled (take n (drop r.read_offset r.read_buf_inner)),
        length-take {0} n (drop r.read_offset r.read_buf_inner),
        length-drop {0} r.read_offset r.read_buf_inner,
      )

  pub at_outer-Keeps :
      (r : SnowyReadHalf)
      → IsReading capacity r
      → r.closed ≡ false
      → Keeps noise capacity (all_bytes noise r) (cost r + 1) (at_outer r)
  unfolding at_outer
  at_outer-Keeps r h open' = elim (Bool-cases (ltb r.read_offset (length r.read_buf_inner))) [
    | inl waits ↦ elim (Bool-cases ((copied r).remaining == 0)) [
      | inl full ↦
          rw (at_outer, waits, full)
            (
              (copied-IsReading r h waits).0,
              copied_bytes noise r open',
              inr (copied-IsReading r h waits).1,
            )
      | inr more ↦
          rw (at_outer, waits, more)
            (
              (copied-IsReading r h waits).0,
              open',
              copied_bytes noise r open',
              omega arith,
              (copied-IsReading r h waits).2 more,
            )
    ]
    | inr empty ↦
        rw (at_outer, empty)
          (h, open', refl, omega arith, ltb→le r.read_offset (length r.read_buf_inner) empty)
  ]
