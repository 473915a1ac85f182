-- ===== src/Tunnel/Plain/Steps.antt =====
-- What a round of the inner loop of `poll_read` keeps: a record is opened, or the socket is read.
use kanotls.Prelude.{
  ℕ, ◌+◌, ◌*◌, ◌≤◌, ◌≡◌, refl, sym, ap, ◌∙◌, subst, inl, inr, List, [], ◌∷◌, ◌++◌, Option,
  Option-cases, Bool, true, false, Bool-cases, ltb→le, ltb→lt, if◌then◌else◌, ltb, ◌==◌, ◌&&◌,
  arith, length, take, drop, length-append, length-zero, append_assoc, append-nil,
}
use kanotls.Tunnel.Noise.{Noise, receive_message}
use kanotls.Tunnel.Writing.{tls_record_header_len}
use kanotls.Tunnel.Reading.{
  incomplete, whole, parse_tls_record, is_alert, data_range, SnowyReadHalf, Event, arrives,
  would_block, fails, returns, Status, ready, invalid_data, hand_over, on_plaintext, on_record,
  on_socket, at_inner, coming,
}
use kanotls.Tunnel.Plain.{
  Parsed-cases, opened, stream_of, parse_whole, stream_of-incomplete, stream_of-append,
}
use kanotls.Tunnel.Plain.Turns.{
  unread, all_bytes, IsReading, cost, IsDrained, Ends, Keeps, drop-all,
}
use kanotls.Tunnel.Plain.Passing.{passes, outer-Keeps, inner-Keeps}

-- Closing hands nothing over and gives up what would come.
returns-closed :
    (noise : Noise) (capacity budget : ℕ) (bs : List ℕ) (st : Status) (r : SnowyReadHalf)
    → IsReading capacity r
    → r.closed ≡ true
    → bs ≡ r.filled ++ []
    → Ends noise st r
    → Keeps noise capacity bs budget (returns st r)
returns-closed noise capacity budget bs st r h shut e ends = (h, rw shut (sym e), ends)

-- The invariant does not look at these fields.
bare :
    {capacity : ℕ} {r : SnowyReadHalf} {closed notified : Bool} {nonce : ℕ} {es : List Event}
    → IsReading capacity r
    → IsReading capacity
        (record r { closed = closed; close_notify_written = notified; nonce = nonce; socket = es })
bare h = record { inner_fits = h.inner_fits; rx_fits = h.rx_fits; room = h.room; moved = h.moved }

data_range_nil : (p : List ℕ) → length p ≤ 0 → length (data_range p) ≤ 0
unfolding data_range
data_range_nil p h = ground arith

hand_over_nil : (r : SnowyReadHalf) → hand_over [] r ≡ r
unfolding hand_over
hand_over_nil r = refl

module _ (noise : Noise) (capacity total frame_type : ℕ) (r : SnowyReadHalf)
    (h : IsReading capacity r) (drained : IsDrained r) (open' : r.closed ≡ false)
    (parsed : parse_tls_record (drop r.tls_rx_offset r.tls_rx_buf) ≡ whole total frame_type) where
  abbrev message : Option (List ℕ) × ℕ
  message =
      receive_message noise r.nonce
        (drop tls_record_header_len (take total (drop r.tls_rx_offset r.tls_rx_buf)))

  abbrev ahead : ℕ → List ℕ → List ℕ
  ahead m left = stream_of noise m (left ++ coming r.socket)

  all_bytes-opened :
      all_bytes noise r
      ≡ r.filled ++ opened noise r.nonce total frame_type (drop r.tls_rx_offset r.tls_rx_buf) ahead
  all_bytes-opened =
      rw (open', drop-all r.read_offset r.read_buf_inner drained)
        (ap (λ t. r.filled ++ t)
          (stream_of-append noise r.nonce total frame_type (drop r.tls_rx_offset r.tls_rx_buf)
            (coming r.socket) parsed))

  on_record-Keeps :
      Keeps noise capacity (all_bytes noise r) (cost r) (on_record noise total frame_type r)
  unfolding on_record on_plaintext opened hand_over
  on_record-Keeps =
      let (five, fits) = parse_whole (drop r.tls_rx_offset r.tls_rx_buf) total frame_type parsed in
      let next_r : SnowyReadHalf = record r { nonce = message.1 } in
      elim (Bool-cases (frame_type == 0x17 && ltb tls_record_header_len total)) [
        | inl app ↦ elim (Option-cases message.0) [
          | inl bad ↦
              rw (on_record, app, bad)
                (returns-closed noise capacity (cost r) _ invalid_data _ (bare h) refl
                  (rw (opened, app, bad) at all_bytes-opened) tt)
          | inr (p, good) ↦ elim (Bool-cases (is_alert p)) [
            | inl alert ↦
                rw (on_record, app, good, on_plaintext, alert)
                  (returns-closed noise capacity (cost r) _ ready _
                    (bare
                      (passes noise capacity total [] next_r (bare h) drained open' five fits).0)
                    refl (rw (opened, app, good, alert) at all_bytes-opened) (inl refl))
            | inr plain ↦ elim (Bool-cases (ltb 0 (length p))) [
              | inl some_bytes ↦
                  rw (on_record, app, good, on_plaintext, plain, some_bytes)
                    (outer-Keeps noise capacity total (data_range p) next_r (bare h) drained open'
                      five fits (rw (opened, app, good, plain) at all_bytes-opened))
              | inr no_bytes ↦
                  rw (on_record, app, good, on_plaintext, plain, no_bytes)
                    (inner-Keeps noise capacity total (data_range p) next_r (bare h) drained open'
                      five fits (rw (opened, app, good, plain) at all_bytes-opened)
                      (data_range_nil p (ltb→le 0 (length p) no_bytes)))
            ]
          ]
        ]
        | inr other ↦ elim (Bool-cases (frame_type == 0x15)) [
          | inl alert ↦
              rw (on_record, other, alert)
                (returns-closed noise capacity (cost r) _ ready _ (bare h) refl
                  (rw (opened, other, alert) at all_bytes-opened) (inl refl))
          | inr passed ↦
              rw (on_record, other, passed)
                (inner-Keeps noise capacity total [] r h drained open' five fits
                  (rw (opened, other, passed) at all_bytes-opened) (omega arith))
        ]
      ]

module _ (noise : Noise) (capacity : ℕ) (r : SnowyReadHalf) (h : IsReading capacity r)
    (drained : IsDrained r) (open' : r.closed ≡ false)
    (parsed : parse_tls_record (drop r.tls_rx_offset r.tls_rx_buf) ≡ incomplete) where
  unread_none : (es : List Event) → coming es ≡ [] → unread noise (record r { socket = es }) ≡ []
  unread_none es e =
      rw
        (
          open',
          drop-all r.read_offset r.read_buf_inner drained,
          e,
          append-nil (drop r.tls_rx_offset r.tls_rx_buf),
        )
        (stream_of-incomplete noise r.nonce (drop r.tls_rx_offset r.tls_rx_buf) parsed)

  kept_front :
      (if ltb 0 r.tls_rx_offset then drop r.tls_rx_offset r.tls_rx_buf else r.tls_rx_buf)
      ≡ drop r.tls_rx_offset r.tls_rx_buf
  kept_front = elim (Bool-cases (ltb 0 r.tls_rx_offset)) [
    | inl e ↦ rw e refl
    | inr e ↦ rw (e, zero_offset e) refl
  ]
    where
      zero_offset : ltb 0 r.tls_rx_offset ≡ false → r.tls_rx_offset ≡ 0
      zero_offset e = ground arith

  on_socket-Keeps :
      (es : List Event)
      → r.filled ≡ []
      → Keeps noise capacity
          (all_bytes noise (record r { socket = es }))
          (2 * (length (drop r.tls_rx_offset r.tls_rx_buf) + length (coming es) + length es))
          (on_socket (record r { socket = es }) es)
  unfolding on_socket
  on_socket-Keeps [] nothing = (bare h, refl, (nothing, λ e. unread_none [] refl))
  on_socket-Keeps (would_block ∷ es) nothing =
      (bare h, refl, (nothing, λ e. unread_none es (ap coming e)))
  on_socket-Keeps (fails ∷ es) nothing = (bare h, refl, nothing)
  on_socket-Keeps (arrives [] ∷ es) nothing =
      elim (Bool-cases (ltb r.tls_rx_offset (length r.tls_rx_buf))) [
        | inl some_left ↦ rw (on_socket, some_left) (bare h, refl, nothing)
        | inr e ↦
            rw (on_socket, e)
              (bare h, ap (λ t. r.filled ++ t) (sym (unread_none (arrives [] ∷ es) refl)), inl refl)
      ]
  on_socket-Keeps (arrives (b ∷ bs) ∷ es) nothing = rw kept_front (
    record { inner_fits = h.inner_fits; rx_fits = omega arith; room = h.room; moved = h.moved },
    open',
    ap
        (λ t.
          r.filled
          ++ (if r.closed
              then []
              else drop r.read_offset r.read_buf_inner ++ stream_of noise r.nonce t))
        (append_assoc (drop r.tls_rx_offset r.tls_rx_buf) (b ∷ bs) (coming es)),
    omega (
      arith,
      length-append {0} (drop r.tls_rx_offset r.tls_rx_buf) (b ∷ bs),
      length-append {0} bs (coming es),
    ),
  )

pub at_inner-Keeps :
    (noise : Noise) (capacity : ℕ) (r : SnowyReadHalf)
    → IsReading capacity r
    → IsDrained r
    → r.closed ≡ false
    → Keeps noise capacity (all_bytes noise r) (cost r) (at_inner noise r)
unfolding at_inner
at_inner-Keeps noise capacity r h drained open' =
    let waiting = λ (moved : Bool).
      Keeps noise capacity (all_bytes noise r) (cost r)
        (if moved then returns ready r else on_socket r r.socket) in
    elim (Parsed-cases (parse_tls_record (drop r.tls_rx_offset r.tls_rx_buf))) [
      | inl (inl large) ↦ rw (at_inner, large) (h, refl, tt)
      | inl (inr part) ↦
          rw (at_inner, part)
            (elim (Bool-cases r.progress) [
              | inl moved ↦
                  subst waiting (sym moved)
                    (h, refl, inr (ltb→lt 0 (length r.filled) (sym h.moved ∙ moved)))
              | inr still ↦ subst waiting (sym still) (
                  on_socket-Keeps noise capacity r h drained open' part r.socket (
                    length-zero r.filled
                      (omega (arith, ltb→le 0 (length r.filled) (sym h.moved ∙ still)))))
            ])
      | inr (total, frame_type, record_there) ↦
          rw (at_inner, record_there)
            (on_record-Keeps noise capacity total frame_type r h drained open' record_there)
    ]
