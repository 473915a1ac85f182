-- ===== src/Frame/RoundTrip.antt =====
-- What `decode` makes of the bytes that `encode` writes, and the other way round.
use kanotls.Prelude.{
  ℕ, ◌+◌, ◌*◌, ◌≤◌, ◌<◌, ◌≡◌, ◌⊎◌, inl, inr, refl, ap, sym, List, [], ◌∷◌, ◌++◌, none, some, ok,
  err, arith, All-take, length, take, length-append, length-take, take-append, take-append-drop,
  drop-append, dec_le, dec_lt, get_or-append, append-nil, ◌∙◌,
}
use kanotls.Frame.{Frame, IsFrame, encode, decode, max_payload_len, payload_too_large, data_len_of}
use kanotls.Prelude.Bytes.{u16_to_be_bytes, u32_to_be_bytes, AllBytes, IsByte}

-- The bytes of a frame whose payload fits the length field.
abbrev pub wire : Frame → List ℕ
wire f = f.cmd ∷ (u32_to_be_bytes f.stream_id ++ (u16_to_be_bytes (length f.payload) ++ f.payload))

pub encode-wire : (f : Frame) → length f.payload ≤ max_payload_len → encode f ≡ ok (wire f)
unfolding encode
encode-wire f h = ground arith

pub decode-wire :
    (f : Frame) (rest : List ℕ)
    → IsFrame f
    → length f.payload ≤ max_payload_len
    → decode (wire f ++ rest) ≡ (some f, rest)
unfolding decode
decode-wire f rest v h = ground (
  arith,
  length-append f.payload rest,
  take-append (length f.payload) f.payload rest refl,
  drop-append (length f.payload) f.payload rest refl,
)

-- `encode` answers with the wire format or with the error, by the payload's length alone.
pub encode_cases :
    (f : Frame)
    → ((length f.payload ≤ max_payload_len) × (encode f ≡ ok (wire f)))
      ⊎ ((max_payload_len < length f.payload)
          × (encode f ≡ err (payload_too_large (length f.payload))))
encode_cases f = elim (dec_le (length f.payload) max_payload_len) [
  | yes h ↦ inl (h, encode-wire f h)
  | no h ↦ inr (omega arith, unfold encode in ground arith)
]

-- A header and a payload of the length that it states, as fields and as bytes.
encode_header :
    (c i0 i1 i2 i3 l0 l1 : ℕ) (payload : List ℕ)
    → AllBytes (c ∷ i0 ∷ i1 ∷ i2 ∷ i3 ∷ l0 ∷ l1 ∷ [])
    → length payload ≡ l0 * 256 + l1
    → encode (record {
      cmd = c;
      stream_id = i0 * 16777216 + i1 * 65536 + i2 * 256 + i3;
      payload = payload;
    })
      ≡ ok (c ∷ i0 ∷ i1 ∷ i2 ∷ i3 ∷ l0 ∷ l1 ∷ payload)
unfolding encode
encode_header c i0 i1 i2 i3 l0 l1 payload v e = ground arith

-- What `decode` takes off a buffer of bytes is a frame that `encode` writes back as it was.
pub encode-decode :
    (src rest : List ℕ) (f : Frame)
    → AllBytes src
    → decode src ≡ (some f, rest)
    → (bytes : List ℕ) × (encode f ≡ ok bytes) × (src ≡ bytes ++ rest)
unfolding decode
encode-decode (c ∷ i0 ∷ i1 ∷ i2 ∷ i3 ∷ l0 ∷ l1 ∷ body) rest f v e =
    let n : ℕ = l0 * 256 + l1 in
    elim (dec_le n (length body)) [
      | yes h ↦ (
        c ∷ i0 ∷ i1 ∷ i2 ∷ i3 ∷ l0 ∷ l1 ∷ take n body,
        ground (
          arith,
          encode_header c i0 i1 i2 i3 l0 l1 (take n body)
              (All-take IsByte 7 (c ∷ i0 ∷ i1 ∷ i2 ∷ i3 ∷ l0 ∷ l1 ∷ body) v)
              (omega (arith, length-take n body)),
        ),
        ground (arith, take-append-drop n body),
      )
      | no h ↦ ground arith
    ]
encode-decode _ rest f v e = ground arith

-- A buffer that ends inside a frame is left as it is.
pub decode_short :
    (f : Frame) (rest b more : List ℕ)
    → length f.payload ≤ max_payload_len
    → b ++ more ≡ wire f ++ rest
    → length b < length (wire f)
    → decode b ≡ (none, b)
unfolding decode
decode_short f rest b more h e short = elim (dec_lt (length b) 7) [
  | yes few ↦ ground arith
  | no many ↦ ground (arith, length_field many)
]
  where
    length_field : ¬ (length b < 7) → data_len_of b ≡ length f.payload
    length_field many = omega (
      arith,
      get_or-append b more 5 0 (omega arith),
      get_or-append b more 6 0 (omega arith),
      ap data_len_of e,
    )

-- `decode` takes an encoded frame off the front of any buffer and leaves the bytes behind it.
pub decode-encode :
    (f : Frame) (bytes rest : List ℕ)
    → IsFrame f
    → encode f ≡ ok bytes
    → decode (bytes ++ rest) ≡ (some f, rest)
decode-encode f bytes rest v e = elim (encode_cases f) [
  | inl (h, done) ↦ let p : bytes ≡ wire f = cc in rw p (decode-wire f rest v h)
  | inr (h, bad) ↦ cc
]

-- On a proper prefix of an encoded frame `decode` answers that there is no frame yet and leaves the
-- buffer as it is.
pub decode_prefix :
    (f : Frame) (front back : List ℕ) (x : ℕ)
    → encode f ≡ ok (front ++ (x ∷ back))
    → decode front ≡ (none, front)
decode_prefix f front back x e = elim (encode_cases f) [
  | inl (h, done) ↦
      let p : front ++ (x ∷ back) ≡ wire f = cc in
      decode_short f [] front (x ∷ back) h (p ∙ sym (append-nil (wire f)))
        (omega (arith, ap length p, length-append front (x ∷ back)))
  | inr (h, bad) ↦ cc
]
