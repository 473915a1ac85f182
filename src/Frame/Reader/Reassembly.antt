-- ===== src/Frame/Reader/Reassembly.antt =====
-- The reader hands over the frames that were written, however the bytes are cut into reads.
use kanotls.Prelude.{
  ℕ, zero, suc, ◌+◌, ◌≤◌, ◌<◌, ◌≡◌, refl, sym, ap, ◌∙◌, inl, inr, List, [], ◌∷◌, ◌++◌, none, some,
  Result, Result-cases, ok, ◌>>=◌, true, arith, length, All, concat, append-nil, append_assoc,
  length-append, length-zero, append-split, dec_lt,
}
use kanotls.Frame.{Frame, FrameError, IsFrame, encode, decode, max_payload_len}
use kanotls.Frame.RoundTrip.{wire, encode_cases, decode-wire, decode_short}
use kanotls.Frame.Reader.{
  Reader, new_reader, decode_loop, decode_all, on_read, read_loop, max_session_reassembly_bytes,
}

-- A frame that `encode` accepts.
abbrev pub IsSendable : Frame → Type 0
IsSendable f = IsFrame f × (length f.payload ≤ max_payload_len)

abbrev pub wires : List Frame → List ℕ
wires [] = []
wires (f ∷ fs) = wire f ++ wires fs

-- No read is empty, and each leaves room in the buffer for one unfinished frame.
abbrev pub IsRead : List ℕ → Type 0
IsRead chunk = (0 < length chunk) × (length chunk + 65541 ≤ max_session_reassembly_bytes)

-- What is left in the buffer is less than the next frame.
abbrev IsPart : List ℕ → List Frame → Type 0
IsPart tail [] = length tail ≡ 0
IsPart tail (f ∷ fs) = length tail < length (wire f)

decode_loop_stop : (fuel : ℕ) (b : List ℕ) → decode b ≡ (none, b) → decode_loop fuel b ≡ ([], b)
unfolding decode_loop
decode_loop_stop zero b e = refl
decode_loop_stop (suc fuel) b e = ground arith

decode_loop_next :
    (fuel : ℕ) (b rest : List ℕ) (f : Frame) (out : List Frame) (tail : List ℕ)
    → decode b ≡ (some f, rest)
    → decode_loop fuel rest ≡ (out, tail)
    → decode_loop (suc fuel) b ≡ (f ∷ out, tail)
unfolding decode_loop
decode_loop_next fuel b rest f out tail e ih = ground arith

decode_nil : decode [] ≡ (none, [])
unfolding decode
decode_nil = refl

-- What one run of the loop does to a buffer that begins a sequence of frames.
record Progress (fuel : ℕ) (fs : List Frame) (b more : List ℕ) : Type 0 where
  out : List Frame
  left : List Frame
  tail : List ℕ
  runs : decode_loop fuel b ≡ (out, tail)
  parts : out ++ left ≡ fs
  bytes : tail ++ more ≡ wires left
  part : IsPart tail left
  sendable : All IsSendable left

decode_loop-wires :
    (fuel : ℕ) (fs : List Frame) (b more : List ℕ)
    → All IsSendable fs
    → length b ≤ fuel
    → b ++ more ≡ wires fs
    → Progress fuel fs b more
decode_loop-wires fuel [] [] more v h e = record {
  out = [];
  left = [];
  tail = [];
  runs = decode_loop_stop fuel [] decode_nil;
  parts = refl;
  bytes = e;
  part = refl;
  sendable = tt;
}
decode_loop-wires fuel [] (x ∷ b) more v h e = absurd (omega (arith, ap length e))
decode_loop-wires zero (f ∷ fs) b more v h e = record {
  out = [];
  left = f ∷ fs;
  tail = b;
  runs = unfold decode_loop in refl;
  parts = refl;
  bytes = e;
  part = omega arith;
  sendable = v;
}
decode_loop-wires (suc fuel) (f ∷ fs) b more v h e = elim (dec_lt (length b) (length (wire f))) [
  | yes short ↦ record {
    out = [];
    left = f ∷ fs;
    tail = b;
    runs = decode_loop_stop (suc fuel) b (decode_short f (wires fs) b more v.0.1 e short);
    parts = refl;
    bytes = e;
    part = short;
    sendable = v;
  }
  | no whole ↦
      let (b', p, q) = append-split (wire f) (wires fs) b more (omega arith) (sym e) in
      let ih =
        decode_loop-wires fuel fs b' more v.1
          (omega (arith, ap length p, length-append f.payload b')) (sym q) in
      record {
        out = f ∷ ih.out;
        left = ih.left;
        tail = ih.tail;
        runs =
            decode_loop_next fuel b b' f ih.out ih.tail (rw p (decode-wire f b' v.0.0 v.0.1))
              ih.runs;
        parts = ap (◌∷◌ f) ih.parts;
        bytes = ih.bytes;
        part = ih.part;
        sendable = ih.sendable;
      }
]

-- The reader's state while it reads the bytes of `left`, of which some have not come yet.
record Reads (r : Reader) (fs left : List Frame) (more : List ℕ) : Type 0 where
  stays_open : r.is_open ≡ true
  order : r.delivered ++ left ≡ fs
  rest : r.buf ++ more ≡ wires left
  part : IsPart r.buf left
  sendable : All IsSendable left

part_bound :
    (tail : List ℕ) (fs : List Frame) → All IsSendable fs → IsPart tail fs → length tail ≤ 65541
part_bound tail [] v h = omega arith
part_bound tail (f ∷ fs) v h = omega (arith, v.0.1)

on_read_open :
    (r : Reader) (chunk : List ℕ) (out : List Frame) (tail : List ℕ)
    → r.is_open ≡ true
    → 0 < length chunk
    → length (r.buf ++ chunk) ≤ max_session_reassembly_bytes
    → decode_all (r.buf ++ chunk) ≡ (out, tail)
    → on_read r chunk ≡ record r { buf = tail; delivered = r.delivered ++ out }
unfolding on_read
on_read_open r [] out tail o h k e = absurd (omega arith)
on_read_open r (b ∷ bs) out tail o h k e = ground arith

on_read-Reads :
    (r : Reader) (chunk : List ℕ) (fs left : List Frame) (more : List ℕ)
    → IsRead chunk
    → Reads r fs left (chunk ++ more)
    → (left' : List Frame) × Reads (on_read r chunk) fs left' more
on_read-Reads r chunk fs left more h v =
    let p =
      decode_loop-wires (length (r.buf ++ chunk)) left (r.buf ++ chunk) more v.sendable
        (omega arith) (append_assoc r.buf chunk more ∙ v.rest) in
    let fits : length (r.buf ++ chunk) ≤ max_session_reassembly_bytes =
      omega (arith, length-append r.buf chunk, part_bound r.buf left v.sendable v.part) in
    (
      p.left,
      rw (on_read_open r chunk p.out p.tail v.stays_open h.0 fits p.runs) (record {
        stays_open = v.stays_open;
        order = append_assoc r.delivered p.out p.left ∙ ap (◌++◌ r.delivered) p.parts ∙ v.order;
        rest = p.bytes;
        part = p.part;
        sendable = p.sendable;
      }),
    )

read_loop-Reads :
    (r : Reader) (chunks : List (List ℕ)) (fs left : List Frame)
    → All IsRead chunks
    → Reads r fs left (concat chunks)
    → (left' : List Frame) × Reads (read_loop r chunks) fs left' []
unfolding read_loop
read_loop-Reads r [] fs left h v = (left, v)
read_loop-Reads r (chunk ∷ chunks) fs left h v =
    let (left', v') = on_read-Reads r chunk fs left (concat chunks) h.0 v in
    read_loop-Reads (on_read r chunk) chunks fs left' h.1 v'

all_read :
    (r : Reader) (fs left : List Frame)
    → Reads r fs left []
    → r ≡ record { buf = []; delivered = fs; is_open = true }
all_read r fs [] v =
    let e : r.buf ≡ [] = length-zero r.buf v.part in
    cc (v.order, v.stays_open, append-nil r.delivered)
all_read r fs (f ∷ left) v = absurd (
    omega (
      arith,
      v.part,
      ap length (sym (append-nil r.buf) ∙ v.rest),
      length-append f.payload (wires left),
    ))

new_reader-Reads :
    (fs : List Frame) (bytes : List ℕ)
    → All IsSendable fs
    → bytes ≡ wires fs
    → Reads new_reader fs fs bytes
new_reader-Reads [] bytes v e = record {
  stays_open = refl;
  order = refl;
  rest = e;
  part = refl;
  sendable = v;
}
new_reader-Reads (f ∷ fs) bytes v e = record {
  stays_open = refl;
  order = refl;
  rest = e;
  part = omega arith;
  sendable = v;
}

-- The bytes of frames that are encoded one after the other.
unfoldable pub encode_all : List Frame → Result FrameError (List ℕ)
encode_all [] = ok []
encode_all (f ∷ fs) = do front ← encode f; back ← encode_all fs; ok (front ++ back)

encode_all-wires :
    (fs : List Frame) (bytes : List ℕ)
    → All IsFrame fs
    → encode_all fs ≡ ok bytes
    → All IsSendable fs × (bytes ≡ wires fs)
unfolding encode_all
encode_all-wires [] bytes v e = (tt, cc)
encode_all-wires (f ∷ fs) bytes v e = elim (Result-cases (encode_all fs)) [
  | inl (back, q) ↦ elim (encode_cases f) [
    | inl (h, done) ↦
        let ih = encode_all-wires fs back v.1 q in (((v.0, h), ih.0), ground (arith, done, q, ih.1))
    | inr (h, bad) ↦ ground arith
  ]
  | inr (_, q) ↦ ground (arith, encode_cases f)
]

-- Whatever frames `encode` accepts, the reader hands them over in order, with nothing left in the
-- buffer and the session open, however their bytes are cut into reads, as long as no read is empty
-- and each leaves room in the buffer for an unfinished frame.
pub read_loop-encode_all :
    (fs : List Frame) (chunks : List (List ℕ))
    → All IsFrame fs
    → All IsRead chunks
    → encode_all fs ≡ ok (concat chunks)
    → read_loop new_reader chunks ≡ record { buf = []; delivered = fs; is_open = true }
read_loop-encode_all fs chunks v h e =
    let (w, e') = encode_all-wires fs (concat chunks) v e in
    let (left, r) = read_loop-Reads new_reader chunks fs fs h (new_reader-Reads fs _ w e') in
    all_read (read_loop new_reader chunks) fs left r
