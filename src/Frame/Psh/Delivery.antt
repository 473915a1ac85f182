-- ===== src/Frame/Psh/Delivery.antt =====
-- A long write reaches the reader as PSH frames that carry its bytes in order.
use kanotls.Prelude.{
  ℕ, zero, suc, ◌≤◌, ◌<◌, ◌≡◌, refl, sym, ap, ◌∙◌, List, [], ◌∷◌, ◌++◌, ok, true, arith, length,
  All, concat, map, take, drop, take-append-drop, length-take, length-drop, All-take, All-drop,
}
use kanotls.Frame.{Frame, IsFrame, encode_psh_into, max_payload_len, cmd_psh}
use kanotls.Frame.RoundTrip.{wire, encode-wire}
use kanotls.Frame.Psh.{chunks, encode_chunks, encode_psh_frames}
use kanotls.Frame.Reader.{new_reader, read_loop}
use kanotls.Frame.Reader.Reassembly.{encode_all, IsRead, read_loop-encode_all}
use kanotls.Prelude.Bytes.{IsU32, AllBytes, IsByte}

-- The chunks of a write: none is empty, none is too long, and together they are the data.
record IsCut (n : ℕ) (xs : List ℕ) (cut : List (List ℕ)) : Type 0 where
  whole : concat cut ≡ xs
  sizes : All (λ c. (0 < length c) × (length c ≤ n)) cut
  bytes : All AllBytes cut

chunks-IsCut :
    (fuel n : ℕ) (xs : List ℕ)
    → 0 < n
    → length xs ≤ fuel
    → AllBytes xs
    → IsCut n xs (chunks fuel n xs)
unfolding chunks
chunks-IsCut zero n [] p h v = record { whole = refl; sizes = tt; bytes = tt }
chunks-IsCut zero n (x ∷ xs) p h v = absurd (omega arith)
chunks-IsCut (suc fuel) n [] p h v = record { whole = refl; sizes = tt; bytes = tt }
chunks-IsCut (suc fuel) n (x ∷ xs) p h v =
    let ih =
      chunks-IsCut fuel n (drop n (x ∷ xs)) p (omega (arith, length-drop n (x ∷ xs)))
        (All-drop IsByte n (x ∷ xs) v) in
    record {
      whole = ap (◌++◌ (take n (x ∷ xs))) ih.whole ∙ take-append-drop n (x ∷ xs);
      sizes = (omega (arith, length-take n (x ∷ xs)), ih.sizes);
      bytes = (All-take IsByte n (x ∷ xs) v, ih.bytes);
    }

-- The PSH frame that carries one chunk.
abbrev pub psh_of : ℕ → List ℕ → Frame
psh_of stream_id chunk = record { cmd = cmd_psh; stream_id = stream_id; payload = chunk }

-- What a write of `xs` is on the wire: PSH frames of the stream, none empty, with the data as their
-- payloads one after the other.
pub record IsWrite (stream_id : ℕ) (xs : List ℕ) (packets : List (List ℕ)) : Type 0 where
  pub payloads : List (List ℕ)
  pub whole : concat payloads ≡ xs
  pub full : All (λ c. 0 < length c) payloads
  pub frames : All IsFrame (map (psh_of stream_id) payloads)
  pub encoded : encode_all (map (psh_of stream_id) payloads) ≡ ok (concat packets)

encode_psh_into-wire :
    (stream_id : ℕ) (chunk : List ℕ)
    → length chunk ≤ max_payload_len
    → encode_psh_into [] stream_id chunk ≡ ok (wire (psh_of stream_id chunk))
unfolding encode_psh_into
encode_psh_into-wire stream_id chunk h = ground arith

abbrev packets_of : ℕ → List (List ℕ) → List (List ℕ)
packets_of stream_id cut = map (λ c. wire (psh_of stream_id c)) cut

encode_chunks-packets :
    (stream_id : ℕ) (cut : List (List ℕ))
    → All (λ c. (0 < length c) × (length c ≤ max_payload_len)) cut
    → encode_chunks stream_id cut ≡ ok (packets_of stream_id cut)
unfolding encode_chunks
encode_chunks-packets stream_id [] h = refl
encode_chunks-packets stream_id (c ∷ cut) h =
    rw (encode_psh_into-wire stream_id c h.0.1, encode_chunks-packets stream_id cut h.1)

cut-frames :
    (stream_id n : ℕ) (cut : List (List ℕ))
    → IsU32 stream_id
    → n ≤ max_payload_len
    → All (λ c. (0 < length c) × (length c ≤ n)) cut
    → All AllBytes cut
    → All (λ c. 0 < length c) cut
      × All IsFrame (map (psh_of stream_id) cut)
      × (encode_all (map (psh_of stream_id) cut) ≡ ok (concat (packets_of stream_id cut)))
unfolding encode_all
cut-frames stream_id n [] hs hn h v = (tt, tt, refl)
cut-frames stream_id n (c ∷ cut) hs hn h v =
    let (full, frames, encoded) = cut-frames stream_id n cut hs hn h.1 v.1 in
    (
      (h.0.0, full),
      (record { cmd_range = omega arith; id_range = hs; payload_range = v.0 }, frames),
      rw (encode-wire (psh_of stream_id c) (omega (arith, h.0.1)), encoded),
    )

-- `encode_psh_frames` never fails on the bytes of a stream, and its packets are PSH frames of the
-- stream, none empty, with the data as their payloads one after the other.
pub encode_psh_frames-IsWrite :
    (stream_id : ℕ) (xs : List ℕ)
    → IsU32 stream_id
    → AllBytes xs
    → (packets : List (List ℕ)) × (encode_psh_frames stream_id xs ≡ ok packets)
      × IsWrite stream_id xs packets
unfolding encode_psh_frames
encode_psh_frames-IsWrite stream_id xs hs v =
    let cut = chunks-IsCut (length xs) max_payload_len xs (omega arith) (omega arith) v in
    let (full, frames, encoded) =
      cut-frames stream_id max_payload_len _ hs (omega arith) cut.sizes cut.bytes in
    (
      packets_of stream_id (chunks (length xs) max_payload_len xs),
      encode_chunks-packets stream_id _ cut.sizes,
      record {
        payloads = chunks (length xs) max_payload_len xs;
        whole = cut.whole;
        full = full;
        frames = frames;
        encoded = encoded;
      },
    )

-- Frames of a stream that carry `xs` one after the other.
pub record Carries (stream_id : ℕ) (xs : List ℕ) (frames : List Frame) : Type 0 where
  pub payloads : List (List ℕ)
  pub whole : concat payloads ≡ xs
  pub full : All (λ c. 0 < length c) payloads
  pub framed : frames ≡ map (psh_of stream_id) payloads

-- However the packets of a write are cut into reads that are not empty and leave room for an
-- unfinished frame, the reader hands over PSH frames of that stream, none empty, whose payloads are
-- the written bytes in order, and it stays open with an empty buffer.
pub read_loop-encode_psh_frames :
    (stream_id : ℕ) (xs : List ℕ) (packets reads : List (List ℕ))
    → IsU32 stream_id
    → AllBytes xs
    → encode_psh_frames stream_id xs ≡ ok packets
    → All IsRead reads
    → concat reads ≡ concat packets
    → Carries stream_id xs (read_loop new_reader reads).delivered
      × ((read_loop new_reader reads).buf ≡ [])
      × ((read_loop new_reader reads).is_open ≡ true)
read_loop-encode_psh_frames stream_id xs packets reads hs v e h c =
    let (packets', e', w) = encode_psh_frames-IsWrite stream_id xs hs v in
    let same : packets ≡ packets' = cc in
    let r = read_loop-encode_all (map (psh_of stream_id) w.payloads) reads w.frames h (
      w.encoded
      ∙ ap (λ (p : List (List ℕ)). ok (concat p)) (sym same)
      ∙ ap (λ (b : List ℕ). ok b) (sym c)) in
    rw r
      (record { payloads = w.payloads; whole = w.whole; full = w.full; framed = refl }, refl, refl)
