-- ===== src/Replay/Window.antt =====
-- The window against the plain history of the numbers that it accepted.
use Prim.Native.Nat.{bit_and, bit_or}
use native.Mathlib.Nat.{one-le-pow}
use kanotls.Prelude.{
  ℕ, ◌+◌, ◌-◌, ◌*◌, ◌%◌, ◌^◌, ◌≤◌, ◌<◌, ◌≡◌, refl, ap, ◌∙◌, List, [], ◌∷◌, Bool, true, false,
  if◌then◌else◌, ltb, leb, ◌==◌, not, ◌||◌, ◌&&◌, arith, max, Bool-cases, dec_lt, leb→le, inl, inr,
}
use kanotls.Prelude.Bits.{bit, bit-bit_or, bit-pow, bit_and-pow, bit-mod, bit-shift}
use kanotls.Replay.{SlidingWindow, new_window, commit, shifted}

abbrev pub contains : ℕ → List ℕ → Bool
contains s [] = false
contains s (x ∷ xs) = x == s || contains s xs

abbrev pub newest : List ℕ → ℕ
newest [] = 0
newest (x ∷ xs) = max x (newest xs)

-- What the window promises: a number is fresh if it was not accepted before and is less than 64 behind
-- the newest one.
abbrev pub is_fresh : List ℕ → ℕ → Bool
is_fresh seen seq = not (contains seq seen) && ltb (newest seen) (seq + 64)

-- The window stands for a history.
pub record Tracks (w : SlidingWindow) (seen : List ℕ) : Type 0 where
  pub top : newest seen ≡ w.highest_seq
  pub digits :
      (k : ℕ)
      → k < 64
      → k ≤ w.highest_seq
      → bit w.bitmap k ≡ (if contains (w.highest_seq - k) seen then 1 else 0)

contains-le-newest : (s : ℕ) (seen : List ℕ) → contains s seen ≡ true → s ≤ newest seen
contains-le-newest s [] h = cc
contains-le-newest s (x ∷ seen) h = ground (arith, contains-le-newest s seen)

above_newest : (s : ℕ) (seen : List ℕ) → newest seen < s → contains s seen ≡ false
above_newest s seen h = elim (Bool-cases (contains s seen)) [
  | inl hit ↦ absurd (omega (arith, contains-le-newest s seen hit))
  | inr miss ↦ miss
]

pub new_window-Tracks : (s : ℕ) → Tracks (new_window s) (s ∷ [])
unfolding new_window
new_window-Tracks s = record { top = omega arith; digits = λ k h l. ground (arith, bit-pow 0 k) }

module _ (w : SlidingWindow) (seen : List ℕ) (seq : ℕ) (t : Tracks w seen) where
  -- The digit that the code tests, as membership.
  tested :
      seq ≤ w.highest_seq
      → w.highest_seq - seq < 64
      → (bit_and w.bitmap (2 ^ (w.highest_seq - seq)) == 0) ≡ not (contains seq seen)
  tested h k =
      let o : ℕ = w.highest_seq - seq in
      let back : w.highest_seq - o ≡ seq = omega arith in
      let d = t.digits o k (omega arith) in
      ground (
        arith,
        bit_and-pow w.bitmap o,
        ap (λ (b : ℕ). b * 2 ^ o) d,
        ap (λ (s : ℕ). contains s seen) back,
        one-le-pow o 2 (omega arith),
      )

  -- Digits of the window after a newer number that is 64 or more ahead.
  far_digits :
      (k : ℕ)
      → w.highest_seq + 64 ≤ seq
      → k < 64
      → bit 1 k ≡ (if contains (seq - k) (seq ∷ seen) then 1 else 0)
  far_digits k h hk =
      ground (arith, bit-pow 0 k, above_newest (seq - k) seen (omega (arith, t.top)))

  shifted_digits :
      (k : ℕ)
      → w.highest_seq < seq
      → k < 64
      → k ≤ seq
      → bit (shifted w.bitmap (seq - w.highest_seq)) k
        ≡ (if contains (seq - k) (seq ∷ seen) then 1 else 0)
  shifted_digits k h hk hl =
      let d : ℕ = seq - w.highest_seq in
      let digit : bit (shifted w.bitmap d) k ≡ max (bit (w.bitmap * 2 ^ d) k) (bit 1 k) =
        bit-bit_or (w.bitmap * 2 ^ d % 2 ^ 64) 1 k
        ∙ ap (λ (b : ℕ). max b (bit 1 k)) (bit-mod (w.bitmap * 2 ^ d) 64 k hk) in
      elim (dec_lt k d) [
        | yes new ↦ ground (
          arith,
          digit,
          bit-shift w.bitmap d k,
          bit-pow 0 k,
          above_newest (seq - k) seen (omega (arith, t.top)),
        )
        | no old ↦
            let back : w.highest_seq - (k - d) ≡ seq - k = omega arith in
            ground (
              arith,
              digit,
              bit-shift w.bitmap d k,
              bit-pow 0 k,
              t.digits (k - d) (omega arith) (omega arith),
              ap (λ (s : ℕ). contains s seen) back,
            )
      ]

  marked_digits :
      (k : ℕ)
      → seq ≤ w.highest_seq
      → k < 64
      → k ≤ w.highest_seq
      → bit (bit_or w.bitmap (2 ^ (w.highest_seq - seq))) k
        ≡ (if contains (w.highest_seq - k) (seq ∷ seen) then 1 else 0)
  marked_digits k h hk hl = ground (
    arith,
    bit-bit_or w.bitmap (2 ^ (w.highest_seq - seq)) k,
    bit-pow (w.highest_seq - seq) k,
    t.digits k hk hl,
  )

  commit_newer :
      w.highest_seq < seq
      → commit w seq ≡ (
        true,
        record {
          highest_seq = seq;
          bitmap =
              if leb 64 (seq - w.highest_seq) then 1 else shifted w.bitmap (seq - w.highest_seq);
        },
      )
  unfolding commit
  commit_newer h = ground arith

  commit_far : seq + 64 ≤ w.highest_seq → commit w seq ≡ (false, w)
  unfolding commit
  commit_far h = ground arith

  commit_seen :
      seq ≤ w.highest_seq
      → w.highest_seq - seq < 64
      → contains seq seen ≡ true
      → commit w seq ≡ (false, w)
  unfolding commit
  commit_seen h k e = ground (arith, tested h k)

  commit_marked :
      seq ≤ w.highest_seq
      → w.highest_seq - seq < 64
      → contains seq seen ≡ false
      → commit w seq ≡ (true, record w { bitmap = bit_or w.bitmap (2 ^ (w.highest_seq - seq)) })
  unfolding commit
  commit_marked h k e = ground (arith, tested h k)

  fresh_newer : w.highest_seq < seq → is_fresh seen seq ≡ true
  fresh_newer h = ground (arith, t.top, above_newest seq seen (omega (arith, t.top)))

  newer_digits :
      (k : ℕ)
      → w.highest_seq < seq
      → k < 64
      → k ≤ seq
      → bit (if leb 64 (seq - w.highest_seq) then 1 else shifted w.bitmap (seq - w.highest_seq)) k
        ≡ (if contains (seq - k) (seq ∷ seen) then 1 else 0)
  newer_digits k h hk hl = elim (Bool-cases (leb 64 (seq - w.highest_seq))) [
    | inl far ↦ rw far (far_digits k (omega (arith, leb→le 64 (seq - w.highest_seq) far)) hk)
    | inr near ↦ rw near (shifted_digits k h hk hl)
  ]

  -- For a window that stands for a history of accepted numbers, `commit` accepts a number exactly if
  -- it was not accepted before and is less than 64 behind the newest one; the new window stands for
  -- the longer history, and a refused number leaves the window as it was.
  pub commit-Tracks :
      ((commit w seq).0 ≡ is_fresh seen seq)
      × Tracks (commit w seq).1 (if is_fresh seen seq then seq ∷ seen else seen)
      × ((commit w seq).1 ≡ (if is_fresh seen seq then (commit w seq).1 else w))
  commit-Tracks = elim (dec_lt w.highest_seq seq) [
    | yes newer ↦
        rw (commit_newer newer, fresh_newer newer)
          (
            refl,
            record { top = omega (arith, t.top); digits = λ k hk hl. newer_digits k newer hk hl },
            refl,
          )
    | no older ↦ elim (dec_lt (w.highest_seq - seq) 64) [
      | no far ↦
          let stale : is_fresh seen seq ≡ false = ground (arith, t.top) in
          rw (commit_far (omega arith), stale) (refl, t, refl)
      | yes near ↦ elim (Bool-cases (contains seq seen)) [
        | inl old ↦
            let stale : is_fresh seen seq ≡ false = ground arith in
            rw (commit_seen (omega arith) near old, stale) (refl, t, refl)
        | inr new ↦
            let fresh : is_fresh seen seq ≡ true = ground (arith, t.top) in
            rw (commit_marked (omega arith) near new, fresh)
              (
                refl,
                record {
                  top = omega (arith, t.top);
                  digits = λ k hk hl. marked_digits k (omega arith) hk hl;
                },
                refl,
              )
      ]
    ]
  ]
