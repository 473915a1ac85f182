-- ===== src/Tunnel/Plain.antt =====
-- The bytes that a sequence of records stands for, read in one piece: what `poll_read` of
-- crates/tunnel/src/common.rs is held against.
pub mod Turns
pub mod Passing
pub mod Steps
pub mod Polls
pub mod Records
use kanotls.Prelude.{
  ℕ, zero, suc, ◌+◌, ◌-◌, ◌≤◌, ◌<◌, ◌≡◌, refl, sym, ap, ◌∙◌, ◌⊎◌, inl, inr, List, [], ◌∷◌, ◌++◌,
  none, some, Bool, true, false, Bool-cases, if◌then◌else◌, ltb, ◌==◌, ◌&&◌, arith, length, get_or,
  take, drop, length-append, length-drop, length-zero, get_or-append, take-append_le,
  drop-append_le,
}
use kanotls.Prelude.Bytes.{u16_from_be_bytes}
use kanotls.Tunnel.Noise.{Noise, receive_message}
use kanotls.Tunnel.Writing.{tls_record_header_len}
use kanotls.Tunnel.Reading.{
  Parsed, too_large, incomplete, whole, parse_tls_record, is_alert, data_range,
  max_tls_record_payload_len,
}

-- A record of application data adds its bytes, an alert or a record that does not decrypt ends the
-- stream, and other records are passed over.
unfoldable pub opened : Noise → ℕ → ℕ → ℕ → List ℕ → (ℕ → List ℕ → List ℕ) → List ℕ
opened noise n total frame_type wire go_on =
    let message = receive_message noise n (drop tls_record_header_len (take total wire)) in
    if frame_type == 0x17 && ltb tls_record_header_len total
    then (elim message.0 [
      | none ↦ []
      | some p ↦ if is_alert p then [] else data_range p ++ go_on message.1 (drop total wire)
    ])
    else if frame_type == 0x15
    then []
    else go_on n (drop total wire)

unfoldable pub stream_on : Noise → ℕ → ℕ → List ℕ → List ℕ
stream_on noise zero n wire = []
stream_on noise (suc fuel) n wire = elim (parse_tls_record wire) [
  | whole total frame_type ↦ opened noise n total frame_type wire (stream_on noise fuel)
  | _ ↦ []
]

-- The bytes of the whole records of `wire`, from a nonce on, up to the first that ends the stream.
abbrev pub stream_of : Noise → ℕ → List ℕ → List ℕ
stream_of noise n wire = stream_on noise (length wire) n wire

pub Parsed-cases :
    (p : Parsed)
    → ((p ≡ too_large) ⊎ (p ≡ incomplete))
      ⊎ ((total : ℕ) × (frame_type : ℕ) × (p ≡ whole total frame_type))
Parsed-cases too_large = inl (inl refl)
Parsed-cases incomplete = inl (inr refl)
Parsed-cases (whole total frame_type) = inr (total, frame_type, refl)

pub parse_whole :
    (buf : List ℕ) (total frame_type : ℕ)
    → parse_tls_record buf ≡ whole total frame_type
    → (5 ≤ total) × (total ≤ length buf)
unfolding parse_tls_record
parse_whole buf total frame_type e = ground arith

-- A record that is whole, or too large, is so whatever follows.
pub parse-append :
    (buf more : List ℕ)
    → ((parse_tls_record buf ≡ too_large) → parse_tls_record (buf ++ more) ≡ too_large)
      × ((total frame_type : ℕ)
          → parse_tls_record buf ≡ whole total frame_type
          → parse_tls_record (buf ++ more) ≡ whole total frame_type)
unfolding parse_tls_record
parse-append buf more = (
  λ e. ground (
    arith,
    length-append {0} buf more,
    get_or-append buf more 0 0,
    get_or-append buf more 3 0,
    get_or-append buf more 4 0,
  ),
  λ total frame_type e. ground (
    arith,
    length-append {0} buf more,
    get_or-append buf more 0 0,
    get_or-append buf more 3 0,
    get_or-append buf more 4 0,
  ),
)

opened-same :
    (noise : Noise) (n total frame_type : ℕ) (wire wire' : List ℕ) (f g : ℕ → List ℕ → List ℕ)
    → take total wire ≡ take total wire'
    → ((m : ℕ) → f m (drop total wire) ≡ g m (drop total wire'))
    → opened noise n total frame_type wire f ≡ opened noise n total frame_type wire' g
unfolding opened
opened-same noise n total frame_type wire wire' f g t h =
    let message = receive_message noise n (drop tls_record_header_len (take total wire)) in
    rw (← t) (ground (arith, h n, h message.1))

parse_nil : (buf : List ℕ) → length buf ≤ 0 → parse_tls_record buf ≡ incomplete
unfolding parse_tls_record
parse_nil buf h = ground arith

-- Fuel beyond the length of the bytes changes nothing.
pub stream_on-fuel :
    (noise : Noise) (f g n : ℕ) (wire : List ℕ)
    → length wire ≤ f
    → length wire ≤ g
    → stream_on noise f n wire ≡ stream_on noise g n wire
unfolding stream_on
stream_on-fuel noise zero zero n wire hf hg = refl
stream_on-fuel noise zero (suc g) n wire hf hg = rw (stream_on, parse_nil wire hf) refl
stream_on-fuel noise (suc f) zero n wire hf hg = rw (stream_on, parse_nil wire hg) refl
stream_on-fuel noise (suc f) (suc g) n wire hf hg = elim (Parsed-cases (parse_tls_record wire)) [
  | inl (inl e) ↦ rw (stream_on, e) refl
  | inl (inr e) ↦ rw (stream_on, e) refl
  | inr (total, frame_type, e) ↦
      let (five, fits) = parse_whole wire total frame_type e in
      let shorter = length-drop total wire in
      rw (stream_on, e)
        (opened-same noise n total frame_type wire wire (stream_on noise f) (stream_on noise g) refl
          λ m. stream_on-fuel noise f g m (drop total wire) (omega arith) (omega arith))
]

-- One record of the stream, then the rest of it.
pub stream_of-whole :
    (noise : Noise) (n total frame_type : ℕ) (wire : List ℕ)
    → parse_tls_record wire ≡ whole total frame_type
    → stream_of noise n wire ≡ opened noise n total frame_type wire (stream_of noise)
unfolding stream_on
stream_of-whole noise n total frame_type wire e =
    let (five, fits) = parse_whole wire total frame_type e in
    let shorter = length-drop total wire in
    stream_on-fuel noise (length wire) (suc (length wire)) n wire (omega arith) (omega arith)
    ∙ rw (stream_on, e)
        (opened-same noise n total frame_type wire wire (stream_on noise (length wire))
          (stream_of noise) refl
          λ m.
            stream_on-fuel noise (length wire) (length (drop total wire)) m (drop total wire)
              (omega arith) (omega arith))

pub stream_of-nil : (noise : Noise) (n : ℕ) → stream_of noise n [] ≡ []
unfolding stream_on
stream_of-nil noise n = refl

pub stream_of-incomplete :
    (noise : Noise) (n : ℕ) (wire : List ℕ)
    → parse_tls_record wire ≡ incomplete
    → stream_of noise n wire ≡ []
unfolding stream_on
stream_of-incomplete noise n wire e =
    stream_on-fuel noise (length wire) (suc (length wire)) n wire (omega arith) (omega arith)
    ∙ rw (stream_on, e) refl

pub stream_of-too_large :
    (noise : Noise) (n : ℕ) (wire : List ℕ)
    → parse_tls_record wire ≡ too_large
    → stream_of noise n wire ≡ []
unfolding stream_on
stream_of-too_large noise n wire e =
    stream_on-fuel noise (length wire) (suc (length wire)) n wire (omega arith) (omega arith)
    ∙ rw (stream_on, e) refl

-- The first record does not depend on what follows it.
pub stream_of-append :
    (noise : Noise) (n total frame_type : ℕ) (buf more : List ℕ)
    → parse_tls_record buf ≡ whole total frame_type
    → stream_of noise n (buf ++ more)
      ≡ opened noise n total frame_type buf (λ m rest. stream_of noise m (rest ++ more))
stream_of-append noise n total frame_type buf more e =
    let (five, fits) = parse_whole buf total frame_type e in
    let front = take-append_le total buf more fits in
    let back = drop-append_le total buf more fits in
    stream_of-whole noise n total frame_type (buf ++ more)
      ((parse-append buf more).1 total frame_type e)
    ∙ opened-same noise n total frame_type (buf ++ more) buf (stream_of noise)
        (λ m rest. stream_of noise m (rest ++ more)) front λ m. ap (stream_of noise m) back
