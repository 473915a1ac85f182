-- ===== src/Session/Inbox/Synack.antt =====
-- What waited for the SYNACK is handed over in order.
use kanotls.Prelude.{
  ℕ, ◌≡◌, refl, ap, sym, subst, ◌∙◌, inl, inr, List, [], ◌∷◌, ◌++◌, none, some, Option-cases, Bool,
  true, false, Bool-cases, if◌then◌else◌, ◌||◌, arith, append-nil, append_assoc,
}
use kanotls.Prelude.Maps.{lookup, remove, IsMap, lookup-remove}
use kanotls.Pending.{BufferedPayload, PendingData, remove_stream, push_back, or_default}
use kanotls.Session.{
  Session, Channel, StreamHandle, member, set_insert, set_remove, unregister_stream_locked,
}
use kanotls.Session.Close.{or_nothing, clear_closing_stream}
use kanotls.Session.Flush.{
  or_new, channel_of, set_channel, send_fin, send_all, push_all_back, end_flush, is_nil,
  flush_client_pending_stream,
}
use kanotls.Session.Inbox.{waiting}
use kanotls.Session.Inbox.Order.{queue_of, channel_of-set_channel}
use kanotls.Session.Inbox.Arrival.{push_back-queue, try_send-open}

-- A channel with the payloads that found room, the others, and nobody gone.
abbrev Passed : Channel → List BufferedPayload → Channel × List BufferedPayload × Bool → Type 0
Passed c ps r =
    (r.0.items ++ r.1 ≡ c.items ++ ps)
    × (r.2 ≡ false)
    × (r.0.receiver_open ≡ true)
    × (r.0.fin_queued ≡ c.fin_queued)

send_all-Passed :
    (c : Channel) (ps : List BufferedPayload) → c.receiver_open ≡ true → Passed c ps (send_all c ps)
unfolding send_all
send_all-Passed c [] listens = (refl, refl, listens, refl)
send_all-Passed c (p ∷ ps) listens = elim (try_send-open c p listens) [
  | inl no_room ↦ rw (send_all, no_room) (refl, refl, listens, refl)
  | inr room ↦
      let (order, there, open_end, fin) =
        send_all-Passed (record c { items = c.items ++ (p ∷ []) }) ps listens in
      rw (send_all, room) (order ∙ append_assoc c.items (p ∷ []) ps, there, open_end, fin)
]

remove_stream-queue :
    (d : PendingData) (sid : ℕ)
    → IsMap d.queues
    → (or_nothing (remove_stream d sid).0 ≡ queue_of d sid)
      × (queue_of (remove_stream d sid).1 sid ≡ [])
unfolding remove_stream
remove_stream-queue d sid m = elim (Option-cases (lookup sid d.queues)) [
  | inl e ↦ rw (remove_stream, e, queue_of) (refl, ap (λ o. (or_default o).items) e)
  | inr (q, e) ↦
      let removed : lookup sid (remove sid d.queues) ≡ none =
        lookup-remove sid sid d.queues m ∙ ground arith in
      rw (remove_stream, e, queue_of) (refl, ap (λ o. (or_default o).items) removed)
]

push_all_back-queue :
    (d : PendingData) (sid : ℕ) (ps : List BufferedPayload)
    → queue_of (push_all_back d sid ps) sid ≡ queue_of d sid ++ ps
unfolding push_all_back
push_all_back-queue d sid [] = sym (append-nil (queue_of d sid))
push_all_back-queue d sid (p ∷ ps) =
    push_all_back-queue (push_back d sid p) sid ps
    ∙ ap (λ q. q ++ ps) (push_back-queue d sid p)
    ∙ append_assoc (queue_of d sid) (p ∷ []) ps

-- The end is told, or stands behind what waits.
abbrev pub end_known : Session → ℕ → Bool
end_known s sid = member sid s.pending_fin || (channel_of s sid).fin_queued

unregister-backlog :
    (sid : ℕ) (s : Session)
    → ((unregister_stream_locked sid s).channels ≡ s.channels)
      × ((unregister_stream_locked sid s).pending_data ≡ s.pending_data)
unfolding unregister_stream_locked
unregister-backlog sid s = elim (Option-cases (lookup sid s.streams)) [
  | inl e ↦ rw (e, unregister_stream_locked) (refl, refl)
  | inr (h, e) ↦ rw (e, unregister_stream_locked) (refl, refl)
]

member_inserted : (x : ℕ) (xs : List ℕ) → member x (set_insert x xs) ≡ true
member_inserted x xs = elim (Bool-cases (member x xs)) [
  | inl e ↦ rw e e
  | inr e ↦ rw e (ground arith)
]

remove_absent : (x : ℕ) (xs : List ℕ) → member x xs ≡ false → set_remove x xs ≡ xs
remove_absent x [] e = refl
remove_absent x (y ∷ ys) e = ground (arith, remove_absent x ys)

same_waiting :
    (sid : ℕ) (r s : Session)
    → (channel_of r sid).items ≡ (channel_of s sid).items
    → r.pending_data ≡ s.pending_data
    → waiting r sid ≡ waiting s sid
unfolding waiting
same_waiting sid r s items kept = rw (waiting, items, kept) refl

known_by_channel :
    (sid : ℕ) (s : Session) → (channel_of s sid).fin_queued ≡ true → end_known s sid ≡ true
known_by_channel sid s e = rw (end_known, e) (ground arith)

-- The end of a flush leaves what waits, and the FIN is known.
end_flush-order :
    (sid : ℕ) (all_delivered : Bool) (s : Session)
    → (channel_of s sid).receiver_open ≡ true
    → (waiting (end_flush sid all_delivered s) sid ≡ waiting s sid)
      × (end_known (end_flush sid all_delivered s) sid ≡ true)
unfolding end_flush waiting clear_closing_stream channel_of set_channel
end_flush-order sid false s listens = (refl, rw (end_known, member_inserted sid s.pending_fin) refl)
end_flush-order sid true s listens =
    let c = channel_of s sid in
    let told : Session = set_channel sid (send_fin c) s in
    let r = end_flush sid true s in
    let (channels, kept) = unregister-backlog sid told in
    let at : channel_of r sid ≡ send_fin c =
      ap (λ ch. or_new (lookup sid ch)) channels ∙ channel_of-set_channel sid (send_fin c) s in
    let sent_end : send_fin c ≡ record c { fin_queued = true } = rw listens refl in
    let now = at ∙ sent_end in
    (
      same_waiting sid r s (ap (λ (k : Channel). k.items) now) kept,
      known_by_channel sid r (ap (λ (k : Channel). k.fin_queued) now),
    )

-- The session after what waited is handed over, before the FIN.
handed_over : ℕ → Session → Session × Channel × List BufferedPayload
handed_over sid s =
    let removed = remove_stream s.pending_data sid in
    let sending = send_all (channel_of s sid) (or_nothing removed.0) in
    (
      set_channel sid sending.0 (record s {
        pending_data = push_all_back removed.1 sid sending.1;
        pending_fin = set_remove sid s.pending_fin;
      }),
      sending.0,
      sending.1,
    )

flush_handed :
    (takes : Bool) (sid : ℕ) (s : Session) (h : StreamHandle)
    → lookup sid s.streams ≡ some h
    → (send_all (channel_of s sid) (or_nothing (remove_stream s.pending_data sid).0)).2 ≡ false
    → flush_client_pending_stream takes sid s ≡ (
        if member sid s.pending_fin
        then end_flush sid (is_nil (handed_over sid s).2) (handed_over sid s).0
        else (handed_over sid s).0)
unfolding flush_client_pending_stream handed_over
flush_handed takes sid s h e there = rw (e, flush_client_pending_stream, there) refl

handed_over-order :
    (sid : ℕ) (s : Session)
    → IsMap s.pending_data.queues
    → (channel_of s sid).receiver_open ≡ true
    → (waiting (handed_over sid s).0 sid ≡ waiting s sid)
      × ((channel_of (handed_over sid s).0 sid).receiver_open ≡ true)
      × ((channel_of (handed_over sid s).0 sid).fin_queued ≡ (channel_of s sid).fin_queued)
unfolding handed_over waiting set_channel
handed_over-order sid s m listens =
    let removed = remove_stream s.pending_data sid in
    let (all, none_left) = remove_stream-queue s.pending_data sid m in
    let sending = send_all (channel_of s sid) (or_nothing removed.0) in
    let (order, there, open_end, fin) =
      send_all-Passed (channel_of s sid) (or_nothing removed.0) listens in
    let unset : Session = record s {
      pending_data = push_all_back removed.1 sid sending.1;
      pending_fin = set_remove sid s.pending_fin;
    } in
    let at : channel_of (set_channel sid sending.0 unset) sid ≡ sending.0 =
      channel_of-set_channel sid sending.0 unset in
    let rest = push_all_back-queue removed.1 sid sending.1 ∙ ap (λ q. q ++ sending.1) none_left in
    (
      ap (λ (k : Channel). k.items ++ queue_of unset.pending_data sid) at
          ∙ ap (λ q. sending.0.items ++ q) rest
          ∙ order
          ∙ ap (λ q. (channel_of s sid).items ++ q) all,
      ap (λ (k : Channel). k.receiver_open) at ∙ open_end,
      ap (λ (k : Channel). k.fin_queued) at ∙ fin,
    )

handed_over-fin :
    (sid : ℕ) (s : Session)
    → member sid s.pending_fin ≡ false
    → (handed_over sid s).0.pending_fin ≡ s.pending_fin
unfolding handed_over set_channel
handed_over-fin sid s e = remove_absent sid s.pending_fin e

unregistered :
    (takes : Bool) (sid : ℕ) (s : Session)
    → lookup sid s.streams ≡ none
    → flush_client_pending_stream takes sid s ≡ s
unfolding flush_client_pending_stream
unregistered takes sid s e = rw (e, flush_client_pending_stream) refl

by_test {ℓ κ} :
    {A : Type ℓ} (P : A → Type κ) (b : Bool) {x y : A}
    → (b ≡ true → P x)
    → (b ≡ false → P y)
    → P (if b then x else y)
by_test P true p q = p refl
by_test P false p q = q refl

-- As long as the stream's receiver is there, the flush after a SYNACK changes neither the payloads
-- that wait for the reader nor their order, wherever the channel gets full, and a FIN that was
-- known stays known and no FIN is made.
pub flush_client_pending_stream-order :
    (queue_takes : Bool) (sid : ℕ) (s : Session)
    → IsMap s.pending_data.queues
    → (channel_of s sid).receiver_open ≡ true
    → (waiting (flush_client_pending_stream queue_takes sid s) sid ≡ waiting s sid)
      × (end_known (flush_client_pending_stream queue_takes sid s) sid ≡ end_known s sid)
flush_client_pending_stream-order takes sid s m listens =
    elim (Option-cases (lookup sid s.streams)) [
      | inl e ↦
          let same = unregistered takes sid s e in
          (ap (λ r. waiting r sid) same, ap (λ r. end_known r sid) same)
      | inr (h, e) ↦
          let there =
            (send_all-Passed (channel_of s sid) (or_nothing (remove_stream s.pending_data sid).0)
              listens).1 in
          let (order, open_end, fin) = handed_over-order sid s m listens in
          let kept = (handed_over sid s).0 in
          let P : Session → Type 0 =
            λ r. (waiting r sid ≡ waiting s sid) × (end_known r sid ≡ end_known s sid) in
          subst P (sym (flush_handed takes sid s h e there)) (
            by_test P (member sid s.pending_fin)
              (λ had.
                let (same, known) =
                  end_flush-order sid (is_nil (handed_over sid s).2) kept open_end in
                let before : end_known s sid ≡ true =
                  ap (λ b. b || (channel_of s sid).fin_queued) had in
                (same ∙ order, known ∙ sym before))
              (λ none_then. (
                order,
                ap (λ b. member sid kept.pending_fin || b) fin
                    ∙ ap (λ l. member sid l || (channel_of s sid).fin_queued)
                        (handed_over-fin sid s none_then),
              )))
    ]
