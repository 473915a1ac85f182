-- ===== src/Session/Flush/Entries.antt =====
-- What the steps of a flush do to the entries of streams that wait for `accept`.
use kanotls.Prelude.{
  ℕ, ◌≡◌, refl, ◌∙◌, inl, inr, List, [], ◌∷◌, none, Option-cases, Bool, true, false, Bool-cases,
  if◌then◌else◌, ◌&&◌, not, leb, length, arith,
}
use kanotls.Prelude.Maps.{lookup, IsMap, lookup-remove}
use kanotls.Pending.{BufferedPayload, len}
use kanotls.Pending.Opening.{PendingOpenStream, remove_open}
use kanotls.Session.{
  Session, member, max_pending_streams, unregister_stream_locked, mark_stream_read_closed_locked,
}
use kanotls.Session.Close.{
  remember_closing_stream, clear_pending_client_stream_state, remove_stream_state,
  finish_closing_stream, Submission, no_room, unanswered, answered, writer_closed, close_stream,
}
use kanotls.Session.Store.{store_pending_data, may_store}
use kanotls.Session.Flush.Accept.{store_all, forget_entry}

abbrev pub entries : Session → List (ℕ × PendingOpenStream)
entries s = s.pending_open_streams.streams

pub unregister-entries :
    (sid : ℕ) (s : Session) → entries (unregister_stream_locked sid s) ≡ entries s
unfolding unregister_stream_locked
unregister-entries sid s = elim (Option-cases (lookup sid s.streams)) [
  | inl e ↦ rw (e, unregister_stream_locked) refl
  | inr (h, e) ↦ rw (e, unregister_stream_locked) refl
]

pub mark-entries :
    (sid : ℕ) (s : Session) → entries (mark_stream_read_closed_locked sid s) ≡ entries s
unfolding mark_stream_read_closed_locked
mark-entries sid s = elim (Option-cases (lookup sid s.streams)) [
  | inl e ↦ rw (e, mark_stream_read_closed_locked) refl
  | inr (h, e) ↦ rw (e, mark_stream_read_closed_locked) (ground arith)
]

if-entries :
    (b : Bool) (x y : Session) (m : List (ℕ × PendingOpenStream))
    → entries x ≡ m
    → entries y ≡ m
    → entries (if b then x else y) ≡ m
if-entries true x y m p q = p
if-entries false x y m p q = q

finish-entries : (sid : ℕ) (s : Session) → entries (finish_closing_stream sid s) ≡ entries s
unfolding finish_closing_stream remember_closing_stream remove_stream_state
    clear_pending_client_stream_state
finish-entries sid s =
    unregister-entries sid (remember_closing_stream sid s)
    ∙ if-entries
        (not (member sid s.closing_streams) && leb max_pending_streams (length s.closing_streams)) _
        _ (entries s) refl refl

pub close_stream-entries :
    (w : Submission) (sid : ℕ) (s : Session) → entries (close_stream w sid s).1 ≡ entries s
unfolding close_stream
close_stream-entries no_room sid s = finish-entries sid s
close_stream-entries unanswered sid s = finish-entries sid s
close_stream-entries answered sid s = finish-entries sid s
close_stream-entries writer_closed sid s = finish-entries sid s

store-entries :
    (sid : ℕ) (p : BufferedPayload) (s : Session)
    → entries (store_pending_data sid p s).1 ≡ entries s
unfolding store_pending_data
store-entries sid p s = elim (Bool-cases (may_store s sid (len p))) [
  | inl e ↦ rw (store_pending_data, e) refl
  | inr e ↦ rw (store_pending_data, e) refl
]

pub store_all-entries :
    (sid : ℕ) (ps : List BufferedPayload) (s : Session) → entries (store_all sid ps s) ≡ entries s
unfolding store_all
store_all-entries sid [] s = refl
store_all-entries sid (p ∷ ps) s =
    store_all-entries sid ps (store_pending_data sid p s).1 ∙ store-entries sid p s

pub forget_entry-gone :
    (sid : ℕ) (s : Session) → IsMap (entries s) → lookup sid (entries (forget_entry sid s)) ≡ none
unfolding forget_entry remove_open
forget_entry-gone sid s m = elim (Option-cases (lookup sid s.pending_open_streams.streams)) [
  | inl e ↦ rw (e, forget_entry, remove_open) e
  | inr (entry, e) ↦
      rw (e, forget_entry, remove_open) (lookup-remove sid sid (entries s) m ∙ ground arith)
]

-- `forget_entry` at the end of a round, whatever came before it.
pub forget_after :
    (sid : ℕ) (s s' : Session)
    → IsMap (entries s)
    → entries s' ≡ entries s
    → lookup sid (entries (forget_entry sid s')) ≡ none
forget_after sid s s' m e = forget_entry-gone sid s' (rw e m)
