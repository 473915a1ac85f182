-- ===== src/Session/Goaway.antt =====
-- Which streams the peer's GOAWAYs say were never processed.
use kanotls.Prelude.{
  ℕ, ◌<◌, ◌^◌, ◌≡◌, ◌∙◌, List, [], ◌∷◌, some, none, Option-cases, Bool, true, false, inl, inr,
  arith, ltb, ◌||◌,
}
use kanotls.Frame.Padding.{decode_padding_goaway}
use kanotls.Session.{Session, goaway_not_received, note_peer_goaway, peer_never_processed}

abbrev pub note_all : List (List ℕ) → Session → Session
note_all [] s = s
note_all (payload ∷ payloads) s = note_all payloads (note_peer_goaway payload s)

abbrev pub below : ℕ → List ℕ → Bool
below stream_id payload = elim (decode_padding_goaway payload) [
  | none ↦ false
  | some last ↦ ltb last stream_id
]

-- Some GOAWAY names a last stream below this one.
abbrev pub some_below : ℕ → List (List ℕ) → Bool
some_below stream_id [] = false
some_below stream_id (payload ∷ payloads) = below stream_id payload || some_below stream_id payloads

never_processed-ltb :
    (s : Session) (stream_id : ℕ)
    → stream_id < 2 ^ 32
    → peer_never_processed s stream_id ≡ ltb s.peer_goaway_last_stream_id stream_id
unfolding peer_never_processed
never_processed-ltb s stream_id narrow = ground arith

note-ltb :
    (payload : List ℕ) (s : Session) (stream_id : ℕ)
    → s.is_client ≡ true
    → ((note_peer_goaway payload s).is_client ≡ true)
      × (ltb (note_peer_goaway payload s).peer_goaway_last_stream_id stream_id
          ≡ (ltb s.peer_goaway_last_stream_id stream_id || below stream_id payload))
unfolding note_peer_goaway
note-ltb payload s stream_id client = elim (Option-cases (decode_padding_goaway payload)) [
  | inl e ↦ rw (note_peer_goaway, client, e) (client, ground arith)
  | inr (last, e) ↦ rw (note_peer_goaway, client, e) (client, ground arith)
]

note_all-ltb :
    (payloads : List (List ℕ)) (s : Session) (stream_id : ℕ)
    → s.is_client ≡ true
    → ltb (note_all payloads s).peer_goaway_last_stream_id stream_id
      ≡ (ltb s.peer_goaway_last_stream_id stream_id || some_below stream_id payloads)
note_all-ltb [] s stream_id client = ground arith
note_all-ltb (payload ∷ payloads) s stream_id client =
    let (still, noted) = note-ltb payload s stream_id client in
    ground (arith, note_all-ltb payloads (note_peer_goaway payload s) stream_id still, noted)

-- For a client that has had no GOAWAY before, after any sequence of GOAWAY payloads, a stream id of
-- 32 bits counts as never processed exactly if some payload names a last stream below it.
pub peer_never_processed-goaways :
    (payloads : List (List ℕ)) (s : Session) (stream_id : ℕ)
    → s.is_client ≡ true
    → s.peer_goaway_last_stream_id ≡ goaway_not_received
    → stream_id < 2 ^ 32
    → peer_never_processed (note_all payloads s) stream_id ≡ some_below stream_id payloads
peer_never_processed-goaways payloads s stream_id client fresh narrow =
    never_processed-ltb (note_all payloads s) stream_id narrow
    ∙ note_all-ltb payloads s stream_id client
    ∙ ground (arith, fresh, narrow)
