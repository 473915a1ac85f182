-- ===== src/Frame/Coalesce/Groups.antt =====
-- Each packet is a run of whole frames, in order.
use kanotls.Prelude.{
  ℕ, ◌+◌, ◌≤◌, ◌<◌, ◌≡◌, ◌⊎◌, inl, inr, refl, sym, ap, ◌∙◌, List, [], ◌∷◌, ◌++◌, ltb, ◌&&◌, not,
  length, false, All, All-append, concat, map, append-nil, append_assoc, length-append, arith,
  Bool-cases, List-cases, ltb→le,
}
use mathlib.Core.List.{map-append}
use kanotls.Frame.Coalesce.{
  Packing, is_empty, push_packet, extend, flush, add_frame, add_frames, pack,
  coalesce_encoded_frames,
}

concat-append {ℓ} :
    {A : Type ℓ} (xs ys : List (List A)) → concat (xs ++ ys) ≡ concat xs ++ concat ys
concat-append [] ys = refl
concat-append (x ∷ xs) ys =
    ap (◌++◌ x) (concat-append xs ys) ∙ sym (append_assoc x (concat xs) (concat ys))

abbrev pub IsFull : List ℕ → Type 0
IsFull frame = 0 < length frame

-- A run fits the packet length, or is one frame alone.
abbrev pub IsRun : ℕ → List (List ℕ) → Type 0
IsRun n run = (0 < length run) × ((length (concat run) ≤ n) ⊎ (length run ≡ 1))

-- The packets are the runs into which the frames are cut.
pub record IsGrouped (n : ℕ) (frames packets : List (List ℕ)) : Type 0 where
  pub runs : List (List (List ℕ))
  pub whole : concat runs ≡ frames
  pub packed : map concat runs ≡ packets
  pub each : All (IsRun n) runs

-- The loop's state after `done`.
record IsPacked (n : ℕ) (done : List (List ℕ)) (p : Packing) : Type 0 where
  runs : List (List (List ℕ))
  open_run : List (List ℕ)
  whole : concat runs ++ open_run ≡ done
  packed : map concat runs ≡ p.out
  filling : concat open_run ≡ p.current
  fits : length p.current ≤ n
  each : All (IsRun n) runs
  full : All IsFull open_run

-- The packet in progress is closed.
close_run :
    (n : ℕ) (done : List (List ℕ)) (p : Packing) (v : IsPacked n done p)
    → 0 < length v.open_run
    → IsPacked n done (record { out = p.out ++ (p.current ∷ []); current = [] })
close_run n done p v h = record {
  runs = v.runs ++ (v.open_run ∷ []);
  open_run = [];
  whole =
      append-nil (concat (v.runs ++ (v.open_run ∷ [])))
      ∙ concat-append v.runs (v.open_run ∷ [])
      ∙ ap (◌++◌ (concat v.runs)) (append-nil v.open_run)
      ∙ v.whole;
  packed =
      map-append concat v.runs (v.open_run ∷ [])
      ∙ ap (λ (o : List (List ℕ)). o ++ (concat v.open_run ∷ [])) v.packed
      ∙ ap (λ (c : List ℕ). p.out ++ (c ∷ [])) v.filling;
  filling = refl;
  fits = omega arith;
  each =
      All-append (IsRun n) v.runs (v.open_run ∷ []) v.each
        ((h, inl (omega (arith, v.fits, ap length v.filling))), tt);
  full = tt;
}

no_run : (runs : List (List ℕ)) → All IsFull runs → length (concat runs) ≡ 0 → runs ≡ []
no_run [] v h = refl
no_run (r ∷ runs) v h = absurd (omega (arith, v.0, length-append r (concat runs)))

some_run : (runs : List (List ℕ)) → 0 < length (concat runs) → 0 < length runs
some_run [] h = h
some_run (r ∷ runs) h = omega arith

flush_empty : (p : Packing) → p.current ≡ [] → flush p ≡ p
unfolding flush
flush_empty p e = ground arith

flush_full :
    (p : Packing)
    → 0 < length p.current
    → flush p ≡ record { out = p.out ++ (p.current ∷ []); current = [] }
unfolding flush
flush_full p e = elim (List-cases p.current) [
  | inl h ↦ absurd (omega (arith, ap length h))
  | inr (b, bs, h) ↦ rw h
]

flush-IsPacked :
    (n : ℕ) (done : List (List ℕ)) (p : Packing)
    → IsPacked n done p
    → IsPacked n done (flush p) × ((flush p).current ≡ [])
flush-IsPacked n done p v = elim (List-cases p.current) [
  | inl h ↦ rw (flush_empty p h) (v, h)
  | inr (b, bs, h) ↦
      let pos : 0 < length p.current = omega (arith, ap length h) in
      rw (flush_full p pos)
        (close_run n done p v (some_run v.open_run (omega (arith, ap length v.filling))), refl)
]

-- A long frame is a packet of its own.
push_run :
    (n : ℕ) (done : List (List ℕ)) (frame : List ℕ) (p : Packing)
    → IsPacked n done p
    → p.current ≡ []
    → IsPacked n (done ++ (frame ∷ [])) (push_packet p frame)
push_run n done frame p v e =
    let none_open : v.open_run ≡ [] =
      no_run v.open_run v.full (ap length v.filling ∙ ap length e) in
    record {
      runs = v.runs ++ ((frame ∷ []) ∷ []);
      open_run = [];
      whole =
          append-nil (concat (v.runs ++ ((frame ∷ []) ∷ [])))
          ∙ concat-append v.runs ((frame ∷ []) ∷ [])
          ∙ ap (λ (d : List (List ℕ)). d ++ (frame ∷ []))
              (sym (append-nil (concat v.runs))
                ∙ ap (◌++◌ (concat v.runs)) (sym none_open)
                ∙ v.whole);
      packed =
          map-append concat v.runs ((frame ∷ []) ∷ [])
          ∙ ap (λ (o : List (List ℕ)). o ++ (concat (frame ∷ []) ∷ [])) v.packed
          ∙ ap (λ (c : List ℕ). p.out ++ (c ∷ [])) (append-nil frame);
      filling = sym e;
      fits = v.fits;
      each = All-append (IsRun n) v.runs ((frame ∷ []) ∷ []) v.each ((omega arith, inr refl), tt);
      full = tt;
    }

extend_run :
    (n : ℕ) (done : List (List ℕ)) (frame : List ℕ) (p : Packing)
    → IsFull frame
    → IsPacked n done p
    → length p.current + length frame ≤ n
    → IsPacked n (done ++ (frame ∷ [])) (extend p frame)
extend_run n done frame p h v fits = record {
  runs = v.runs;
  open_run = v.open_run ++ (frame ∷ []);
  whole =
      sym (append_assoc (concat v.runs) v.open_run (frame ∷ []))
      ∙ ap (λ (d : List (List ℕ)). d ++ (frame ∷ [])) v.whole;
  packed = v.packed;
  filling =
      concat-append v.open_run (frame ∷ [])
      ∙ ap (◌++◌ (concat v.open_run)) (append-nil frame)
      ∙ ap (λ (c : List ℕ). c ++ frame) v.filling;
  fits = omega (arith, length-append p.current frame);
  each = v.each;
  full = All-append IsFull v.open_run (frame ∷ []) v.full (h, tt);
}

add_frame-IsPacked :
    (n : ℕ) (done : List (List ℕ)) (frame : List ℕ) (p : Packing)
    → IsFull frame
    → IsPacked n done p
    → IsPacked n (done ++ (frame ∷ [])) (add_frame n p frame)
unfolding add_frame
add_frame-IsPacked n done frame p h v =
    let (w, e) = flush-IsPacked n done p v in
    elim (Bool-cases (ltb n (length frame))) [
      | inl long ↦ rw long (push_run n done frame (flush p) w e)
      | inr short ↦
          elim (Bool-cases (ltb n (length p.current + length frame) && not (is_empty p.current))) [
            | inl over ↦
                rw (short, over)
                  (extend_run n done frame (flush p) h w
                    (omega (arith, ap length e, ltb→le n (length frame) short)))
            | inr room ↦
                rw (short, room)
                  (extend_run n done frame p h v (room_left (length frame) p.current short room))
          ]
    ]
  where
    room_left :
        (k : ℕ) (c : List ℕ)
        → ltb n k ≡ false
        → (ltb n (length c + k) && not (is_empty c)) ≡ false
        → length c + k ≤ n
    room_left k [] s r = ground arith
    room_left k (b ∷ bs) s r = ground arith

add_frames-IsPacked :
    (n : ℕ) (done frames : List (List ℕ)) (p : Packing)
    → All IsFull frames
    → IsPacked n done p
    → IsPacked n (done ++ frames) (add_frames n p frames)
unfolding add_frames
add_frames-IsPacked n done [] p h v = rw (append-nil done) v
add_frames-IsPacked n done (frame ∷ frames) p h v = rw (append_assoc done (frame ∷ []) frames) at (
    add_frames-IsPacked n (done ++ (frame ∷ [])) frames (add_frame n p frame) h.1
      (add_frame-IsPacked n done frame p h.0 v))

pack-IsGrouped :
    (n : ℕ) (frames : List (List ℕ)) → All IsFull frames → IsGrouped n frames (pack frames n)
unfolding pack
pack-IsGrouped n frames h =
    let start : IsPacked n [] (record { out = []; current = [] }) = record {
      runs = [];
      open_run = [];
      whole = refl;
      packed = refl;
      filling = refl;
      fits = omega arith;
      each = tt;
      full = tt;
    } in
    let (v, e) =
      flush-IsPacked n frames (add_frames n (record { out = []; current = [] }) frames)
        (add_frames-IsPacked n [] frames _ h start) in
    record {
      runs = v.runs;
      whole =
          sym (append-nil (concat v.runs))
          ∙ ap (◌++◌ (concat v.runs))
              (sym (no_run v.open_run v.full (ap length v.filling ∙ ap length e)))
          ∙ v.whole;
      packed = v.packed;
      each = v.each;
    }

-- If no frame is empty, the packets are the frames cut into runs, in order and with nothing lost or
-- split, and a packet over the limit is a single frame.
pub coalesce_encoded_frames-IsGrouped :
    (n : ℕ) (frames : List (List ℕ))
    → All IsFull frames
    → IsGrouped n frames (coalesce_encoded_frames frames n)
unfolding coalesce_encoded_frames
coalesce_encoded_frames-IsGrouped n [] h = pack-IsGrouped n [] h
coalesce_encoded_frames-IsGrouped n ([] ∷ []) h = absurd (omega (arith, h.0))
coalesce_encoded_frames-IsGrouped n ((b ∷ bs) ∷ []) h = record {
  runs = ((b ∷ bs) ∷ []) ∷ [];
  whole = refl;
  packed = ap (λ (c : List ℕ). c ∷ []) (append-nil (b ∷ bs));
  each = ((omega arith, inr refl), tt);
}
coalesce_encoded_frames-IsGrouped n (f ∷ g ∷ frames) h = pack-IsGrouped n (f ∷ g ∷ frames) h
