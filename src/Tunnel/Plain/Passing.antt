-- ===== src/Tunnel/Plain/Passing.antt =====
-- Passing a record in `poll_read`: its bytes are handed over, and what follows them stays.
use kanotls.Prelude.{
  ℕ, ◌+◌, ◌-◌, ◌≤◌, ◌≡◌, refl, sym, ap, ◌∙◌, inl, inr, List, [], ◌++◌, Bool, true, false,
  Bool-cases, if◌then◌else◌, ltb, leb, ◌==◌, ◌&&◌, arith, length, take, drop, min, length-append,
  length-drop, length-take, length-zero, take-append-drop, append_assoc, drop-append_le,
}
use kanotls.Tunnel.Noise.{Noise}
use kanotls.Tunnel.Reading.{SnowyReadHalf, outer, inner, past, hand_over, coming}
use kanotls.Tunnel.Plain.{stream_of}
use kanotls.Tunnel.Plain.Turns.{all_bytes, IsReading, cost, IsDrained, Keeps, drop-all, drop-drop}

-- What handing bytes over changes, when nothing older waits.
record Handed (capacity : ℕ) (bytes : List ℕ) (r : SnowyReadHalf) : Type 0 where
  filled : List ℕ
  remaining : ℕ
  waits : List ℕ
  progress : Bool
  gives : hand_over bytes r ≡ record r {
    filled = filled;
    remaining = remaining;
    read_buf_inner = waits;
    progress = progress;
  }
  same : filled ++ drop r.read_offset waits ≡ r.filled ++ bytes
  inner_fits : r.read_offset ≤ length waits
  room : length filled + remaining ≡ capacity
  moved : progress ≡ ltb 0 (length filled)
  drained : length bytes ≤ 0 → length waits ≤ r.read_offset

module _ (capacity : ℕ) (bytes : List ℕ) (r : SnowyReadHalf) (h : IsReading capacity r)
    (drained : IsDrained r) where
  old_read : drop r.read_offset r.read_buf_inner ≡ []
  old_read = drop-all r.read_offset r.read_buf_inner drained

  behind_old : (xs : List ℕ) → drop r.read_offset (r.read_buf_inner ++ xs) ≡ xs
  behind_old xs = drop-append_le r.read_offset r.read_buf_inner xs h.inner_fits ∙ rw old_read refl

  Handed-none : length bytes == 0 ≡ true → Handed capacity bytes r
  unfolding hand_over
  Handed-none e =
      let nothing : bytes ≡ [] = length-zero bytes (ground arith) in
      record {
        filled = r.filled;
        remaining = r.remaining;
        waits = r.read_buf_inner;
        progress = r.progress;
        gives = rw (hand_over, e) refl;
        same = rw (nothing, old_read) refl;
        inner_fits = h.inner_fits;
        room = h.room;
        moved = h.moved;
        drained = λ z. drained;
      }

  Handed-later :
      length bytes == 0 ≡ false
      → leb (length r.read_buf_inner) r.read_offset && ltb 0 r.remaining ≡ false
      → Handed capacity bytes r
  unfolding hand_over
  Handed-later e f = record {
    filled = r.filled;
    remaining = r.remaining;
    waits = r.read_buf_inner ++ bytes;
    progress = r.progress;
    gives = rw (hand_over, e, f) refl;
    same = ap (λ t. r.filled ++ t) (behind_old bytes);
    inner_fits = ground (arith, h.inner_fits, length-append {0} r.read_buf_inner bytes);
    room = h.room;
    moved = h.moved;
    drained = λ z. ground arith;
  }

  Handed-now :
      length bytes == 0 ≡ false
      → leb (length r.read_buf_inner) r.read_offset && ltb 0 r.remaining ≡ true
      → Handed capacity bytes r
  unfolding hand_over
  Handed-now e f =
      let n = min (length bytes) r.remaining in
      let waits =
        if ltb n (length bytes) then r.read_buf_inner ++ drop n bytes else r.read_buf_inner in
      let left : drop r.read_offset waits ≡ drop n bytes =
        elim (Bool-cases (ltb n (length bytes))) [
          | inl some_left ↦ rw some_left (behind_old (drop n bytes))
          | inr none_left ↦ rw (none_left, old_read) (sym (drop-all n bytes (ground arith)))
        ] in
      record {
        filled = r.filled ++ take n bytes;
        remaining = r.remaining - n;
        waits = waits;
        progress = true;
        gives = rw (hand_over, e, f) refl;
        same = rw left (
            append_assoc r.filled (take n bytes) (drop n bytes)
            ∙ ap (λ t. r.filled ++ t) (take-append-drop n bytes));
        inner_fits =
            ground (arith, h.inner_fits, length-append {0} r.read_buf_inner (drop n bytes));
        room =
            ground
              (arith, h.room, length-append {0} r.filled (take n bytes), length-take {0} n bytes);
        moved = ground (arith, length-append {0} r.filled (take n bytes), length-take {0} n bytes);
        drained = λ z. ground arith;
      }

  handed : Handed capacity bytes r
  handed = elim (Bool-cases (length bytes == 0)) [
    | inl e ↦ Handed-none e
    | inr e ↦ elim (Bool-cases (leb (length r.read_buf_inner) r.read_offset && ltb 0 r.remaining)) [
      | inl f ↦ Handed-now e f
      | inr f ↦ Handed-later e f
    ]
  ]

regroup {ℓ} :
    {A : Type ℓ} (xs ys us vs zs : List A)
    → xs ++ ys ≡ us ++ vs
    → xs ++ (ys ++ zs) ≡ us ++ (vs ++ zs)
regroup xs ys us vs zs e = sym (append_assoc xs ys zs) ∙ ap (λ t. t ++ zs) e ∙ append_assoc us vs zs

-- The bytes of a record are handed over, and the record is passed.
module _ (noise : Noise) (capacity total : ℕ) (bytes : List ℕ) (r : SnowyReadHalf)
    (h : IsReading capacity r) (drained : IsDrained r) (open' : r.closed ≡ false) (five : 5 ≤ total)
    (fits : total ≤ length (drop r.tls_rx_offset r.tls_rx_buf)) where
  abbrev pub after : SnowyReadHalf
  after = past (r.tls_rx_offset + total) (hand_over bytes r)

  abbrev rest : List ℕ
  rest = drop total (drop r.tls_rx_offset r.tls_rx_buf)

  end_fits : r.tls_rx_offset + total ≤ length r.tls_rx_buf
  end_fits = ground (arith, h.rx_fits, length-drop {0} r.tls_rx_offset r.tls_rx_buf)

  -- The rest of the buffer, however the end of the buffer is treated.
  rest_of :
      let last = r.tls_rx_offset + total == length r.tls_rx_buf in
      (drop (if last then 0 else r.tls_rx_offset + total) (if last then [] else r.tls_rx_buf)
        ≡ rest)
      × ((if last then 0 else r.tls_rx_offset + total) ≤ length (if last then [] else r.tls_rx_buf))
  rest_of = elim (Bool-cases (r.tls_rx_offset + total == length r.tls_rx_buf)) [
    | inl e ↦ rw e (
      sym (
          drop-drop r.tls_rx_offset total r.tls_rx_buf
          ∙ drop-all (r.tls_rx_offset + total) r.tls_rx_buf (ground arith)),
      omega arith,
    )
    | inr e ↦ rw e (sym (drop-drop r.tls_rx_offset total r.tls_rx_buf), end_fits)
  ]

  pub passes :
      IsReading capacity after
      × (after.closed ≡ false)
      × (all_bytes noise after
          ≡ r.filled ++ (bytes ++ stream_of noise r.nonce (rest ++ coming r.socket)))
      × (cost after + 2 ≤ cost r)
      × (length bytes ≤ 0 → IsDrained after)
  passes =
      let g = handed capacity bytes r h drained in
      rw g.gives (
        record { inner_fits = g.inner_fits; rx_fits = rest_of.1; room = g.room; moved = g.moved },
        open',
        rw (open', rest_of.0)
            (regroup g.filled (drop r.read_offset g.waits) r.filled bytes
              (stream_of noise r.nonce (rest ++ coming r.socket)) g.same),
        rw rest_of.0 (omega (arith, length-drop {0} total (drop r.tls_rx_offset r.tls_rx_buf))),
        g.drained,
      )

  -- A record that holds bytes, or is passed over.
  pub outer-Keeps :
      {bs : List ℕ}
      → bs ≡ r.filled ++ (bytes ++ stream_of noise r.nonce (rest ++ coming r.socket))
      → Keeps noise capacity bs (cost r) (outer after)
  outer-Keeps e = (passes.0, passes.1, passes.2 ∙ sym e, passes.3)

  pub inner-Keeps :
      {bs : List ℕ}
      → bs ≡ r.filled ++ (bytes ++ stream_of noise r.nonce (rest ++ coming r.socket))
      → length bytes ≤ 0
      → Keeps noise capacity bs (cost r) (inner after)
  inner-Keeps e none_there =
      (passes.0, passes.1, passes.2 ∙ sym e, omega (arith, passes.3), passes.4 none_there)
