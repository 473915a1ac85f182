-- ===== src/Tunnel/Writing/Flushes.antt =====
-- A flush sends the bytes of the buffer once and in order.
use kanotls.Prelude.{
  ℕ, ◌+◌, ◌-◌, ◌≡◌, refl, sym, ap, ◌∙◌, inl, inr, List, [], ◌∷◌, ◌++◌, false, Bool-cases, ltb, ◌==◌,
  arith, ltb→le, min, length, length-zero, take, drop, append_assoc, append-nil, take-append-drop,
}
use kanotls.Tunnel.Writing.{
  SnowyWriteHalf, Accepts, takes, refuses, Flushed, flushed, write_zero, write_failed, Peer,
  flush_loop, try_flush_write_buffer, Poll, ready, after_flush, poll_flush,
}
use kanotls.Tunnel.Plain.Turns.{drop-all, drop-drop}

-- What the socket took, and what still waits for it.
abbrev pub outgoing : SnowyWriteHalf → List ℕ → List ℕ
outgoing w sent = sent ++ drop w.write_offset w.write_buffer

sent_all :
    (w : SnowyWriteHalf) (sent : List ℕ)
    → ltb w.write_offset (length w.write_buffer) ≡ false
    → sent ++ [] ≡ outgoing w sent
sent_all w sent done =
    ap (λ t. sent ++ t)
      (sym (
        drop-all w.write_offset w.write_buffer
          (ltb→le w.write_offset (length w.write_buffer) done)))

sends_on :
    (off n : ℕ) (buf sent : List ℕ)
    → (sent ++ take n (drop off buf)) ++ drop (off + n) buf ≡ sent ++ drop off buf
sends_on off n buf sent =
    append_assoc sent (take n (drop off buf)) (drop (off + n) buf)
    ∙ ap (λ t. sent ++ t)
        (ap (λ t. take n (drop off buf) ++ t) (sym (drop-drop off n buf))
          ∙ take-append-drop n (drop off buf))

flush_loop-outgoing :
    (as' : List Accepts) (w : SnowyWriteHalf) (sent : List ℕ)
    → outgoing (flush_loop as' w sent).1 (flush_loop as' w sent).2.sent ≡ outgoing w sent
unfolding flush_loop
flush_loop-outgoing [] w sent = elim (Bool-cases (ltb w.write_offset (length w.write_buffer))) [
  | inl left ↦ rw left refl
  | inr done ↦ rw done (sent_all w sent done)
]
flush_loop-outgoing (refuses ∷ as') w sent =
    elim (Bool-cases (ltb w.write_offset (length w.write_buffer))) [
      | inl left ↦ rw left refl
      | inr done ↦ rw done (sent_all w sent done)
    ]
flush_loop-outgoing (takes k ∷ as') w sent =
    let n = min k (length w.write_buffer - w.write_offset) in
    let w' : SnowyWriteHalf = record w { write_offset = w.write_offset + n } in
    let sent' = sent ++ take n (drop w.write_offset w.write_buffer) in
    elim (Bool-cases (ltb w.write_offset (length w.write_buffer))) [
      | inl left ↦ elim (Bool-cases (n == 0)) [
        | inl none_taken ↦ rw (left, none_taken) refl
        | inr some_taken ↦
            rw (left, some_taken)
              (flush_loop-outgoing as' w' sent' ∙ sends_on w.write_offset n w.write_buffer sent)
      ]
      | inr done ↦ rw done (sent_all w sent done)
    ]

after_flush-outgoing :
    (socket_flush : Poll) (result : Flushed) (w : SnowyWriteHalf) (p : Peer)
    → outgoing (after_flush socket_flush result w p).1 (after_flush socket_flush result w p).2.sent
      ≡ outgoing w p.sent
unfolding after_flush
after_flush-outgoing socket_flush flushed w p = elim (Bool-cases (length w.write_buffer == 0)) [
  | inl e ↦ rw (after_flush, e) refl
  | inr e ↦ rw (after_flush, e) refl
]
after_flush-outgoing socket_flush write_zero w p = refl
after_flush-outgoing socket_flush write_failed w p = refl

after_flush_ready :
    (socket_flush : Poll) (result : Flushed) (w : SnowyWriteHalf) (p : Peer)
    → (after_flush socket_flush result w p).0 ≡ ready
    → (after_flush socket_flush result w p).1.write_buffer ≡ []
unfolding after_flush
after_flush_ready socket_flush flushed w p h = elim (Bool-cases (length w.write_buffer == 0)) [
  | inl e ↦ rw (after_flush, e) (length-zero w.write_buffer (ground arith))
  | inr e ↦ cc (rw (after_flush, e) at h)
]
after_flush_ready socket_flush write_zero w p h = cc
after_flush_ready socket_flush write_failed w p h = cc

-- Whatever part of its writes the socket takes, a call of `poll_flush` loses no byte and sends none
-- twice: what was sent, followed by what is left in the buffer, is what it was before.
pub poll_flush-outgoing :
    (socket_flush : Poll) (w : SnowyWriteHalf) (p : Peer)
    → outgoing (poll_flush socket_flush w p).1 (poll_flush socket_flush w p).2.sent
      ≡ outgoing w p.sent
unfolding poll_flush
poll_flush-outgoing socket_flush w p =
    let t = try_flush_write_buffer w p in
    after_flush-outgoing socket_flush t.0 t.1 t.2 ∙ flush_loop-outgoing p.answers w p.sent

-- When the flush is ready, all of the buffer was sent.
pub poll_flush_ready :
    (socket_flush : Poll) (w : SnowyWriteHalf) (p : Peer)
    → (poll_flush socket_flush w p).0 ≡ ready
    → (poll_flush socket_flush w p).2.sent ≡ outgoing w p.sent
unfolding poll_flush
poll_flush_ready socket_flush w p h =
    let t = try_flush_write_buffer w p in
    let f = poll_flush socket_flush w p in
    let empty : f.1.write_buffer ≡ [] = after_flush_ready socket_flush t.0 t.1 t.2 h in
    let nothing : drop f.1.write_offset f.1.write_buffer ≡ [] =
      drop-all f.1.write_offset f.1.write_buffer (ground (arith, empty)) in
    sym (ap (λ t. f.2.sent ++ t) nothing ∙ append-nil f.2.sent)
    ∙ poll_flush-outgoing socket_flush w p
