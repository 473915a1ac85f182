-- ===== src/Session/Counts/Tables.antt =====
-- The counters as sums over the tables, and single changes of a table.
use kanotls.Prelude.{
  ℕ, ◌+◌, ◌-◌, ◌≤◌, ◌<◌, ◌≡◌, ◌^◌, refl, List, some, none, true, false, if◌then◌else◌, arith,
}
use kanotls.Prelude.Maps.{
  lookup, insert, remove, IsMap, insert-IsMap, remove-IsMap, sum, weight_at, sum-insert, sum-remove,
}
use kanotls.Pending.Opening.{PendingOpenStream, default_stream}
use kanotls.Session.{Session, StreamHandle, wrapping_sub}

abbrev pub open_weight : StreamHandle → ℕ
open_weight h = if h.read_closed then 0 else 1

abbrev pub unreleased : PendingOpenStream → ℕ
unreleased e = if e.reservation_released then 0 else 1

pub record Counted (streams : List (ℕ × StreamHandle)) (active : ℕ)
    (opening : List (ℕ × PendingOpenStream)) (reserved limit : ℕ) : Type 0 where
  pub streams_map : IsMap streams
  pub opening_map : IsMap opening
  pub active_count : active ≡ sum open_weight streams
  pub reserved_count : reserved ≡ sum unreleased opening
  pub within : active + reserved ≤ limit
  pub narrow : limit < 2 ^ 63

abbrev pub IsCounted : Session → Type 0
IsCounted s =
    Counted s.streams s.capacity_stream_count s.pending_open_streams.streams
      s.pending_inbound_streams s.max_streams_per_session

weight_at-lookup {ℓ} :
    {V : Type ℓ} (weight : V → ℕ) (k : ℕ) (m : List (ℕ × V)) (v : V)
    → lookup k m ≡ some v
    → weight_at weight k m ≡ weight v
weight_at-lookup weight k m v e = rw (e, weight_at) refl

module _ {streams : List (ℕ × StreamHandle)} {active : ℕ} {opening : List (ℕ × PendingOpenStream)}
    {reserved limit : ℕ} (c : Counted streams active opening reserved limit) where
  pub remove_handle :
      (sid : ℕ) (h : StreamHandle)
      → lookup sid streams ≡ some h
      → Counted
          (remove sid streams)
          (if h.read_closed then active else wrapping_sub active 1)
          opening
          reserved
          limit
  remove_handle sid h e =
      let at = weight_at-lookup open_weight sid streams h e in
      let total = sum-remove open_weight sid streams in
      record {
        streams_map = remove-IsMap sid streams c.streams_map;
        opening_map = c.opening_map;
        active_count = ground (arith, at, total, c.active_count, c.within, c.narrow);
        reserved_count = c.reserved_count;
        within = ground (arith, at, total, c.active_count, c.within, c.narrow);
        narrow = c.narrow;
      }

  -- A handle that is closed for reading, or whose other fields change.
  pub update_handle :
      (sid : ℕ) (h h' : StreamHandle)
      → lookup sid streams ≡ some h
      → h'.read_closed ≡ h.read_closed
      → Counted (insert sid h' streams) active opening reserved limit
  update_handle sid h h' e same =
      let at = weight_at-lookup open_weight sid streams h e in
      let total = sum-insert open_weight sid h' streams in
      record {
        streams_map = insert-IsMap sid h' streams c.streams_map;
        opening_map = c.opening_map;
        active_count = ground (arith, at, total, same, c.active_count);
        reserved_count = c.reserved_count;
        within = c.within;
        narrow = c.narrow;
      }

  pub close_handle :
      (sid : ℕ) (h : StreamHandle)
      → lookup sid streams ≡ some h
      → h.read_closed ≡ false
      → Counted
          (insert sid (record h { read_closed = true }) streams)
          (wrapping_sub active 1)
          opening
          reserved
          limit
  close_handle sid h e open_for_reading =
      let at = weight_at-lookup open_weight sid streams h e in
      let total = sum-insert open_weight sid (record h { read_closed = true }) streams in
      record {
        streams_map = insert-IsMap sid (record h { read_closed = true }) streams c.streams_map;
        opening_map = c.opening_map;
        active_count =
            ground (arith, at, total, open_for_reading, c.active_count, c.within, c.narrow);
        reserved_count = c.reserved_count;
        within = ground (arith, at, total, open_for_reading, c.active_count, c.within, c.narrow);
        narrow = c.narrow;
      }

  pub update_entry :
      (sid : ℕ) (e e' : PendingOpenStream)
      → lookup sid opening ≡ some e
      → e'.reservation_released ≡ e.reservation_released
      → Counted streams active (insert sid e' opening) reserved limit
  update_entry sid e e' found same =
      let at = weight_at-lookup unreleased sid opening e found in
      let total = sum-insert unreleased sid e' opening in
      record {
        streams_map = c.streams_map;
        opening_map = insert-IsMap sid e' opening c.opening_map;
        active_count = c.active_count;
        reserved_count = ground (arith, at, total, same, c.reserved_count);
        within = c.within;
        narrow = c.narrow;
      }

  -- An entry gives up its reservation.
  pub release_entry :
      (sid : ℕ) (e e' : PendingOpenStream)
      → lookup sid opening ≡ some e
      → e.reservation_released ≡ false
      → e'.reservation_released ≡ true
      → Counted streams active (insert sid e' opening) (reserved - 1) limit
  release_entry sid e e' found held given =
      let at = weight_at-lookup unreleased sid opening e found in
      let total = sum-insert unreleased sid e' opening in
      let w : unreleased e ≡ 1 = rw held refl in
      let w' : unreleased e' ≡ 0 = rw given refl in
      record {
        streams_map = c.streams_map;
        opening_map = insert-IsMap sid e' opening c.opening_map;
        active_count = c.active_count;
        reserved_count = omega (arith, at, total, w, w', c.reserved_count);
        within = omega (arith, c.within);
        narrow = c.narrow;
      }

  -- An entry is made for a new id, within the limit.
  pub insert_entry :
      (sid : ℕ)
      → lookup sid opening ≡ none
      → active + reserved < limit
      → Counted streams active (insert sid default_stream opening) (reserved + 1) limit
  insert_entry sid missing room =
      let total = sum-insert unreleased sid default_stream opening in
      let at : weight_at unreleased sid opening ≡ 0 = rw (missing, weight_at) refl in
      record {
        streams_map = c.streams_map;
        opening_map = insert-IsMap sid default_stream opening c.opening_map;
        active_count = c.active_count;
        reserved_count = omega (arith, at, total, c.reserved_count);
        within = omega (arith, room);
        narrow = c.narrow;
      }

  -- An entry with a reservation goes away with it.
  pub remove_entry :
      (sid : ℕ) (e : PendingOpenStream)
      → lookup sid opening ≡ some e
      → e.reservation_released ≡ false
      → Counted streams active (remove sid opening) (reserved - 1) limit
  remove_entry sid e found held =
      let at = weight_at-lookup unreleased sid opening e found in
      let total = sum-remove unreleased sid opening in
      let w : unreleased e ≡ 1 = rw held refl in
      record {
        streams_map = c.streams_map;
        opening_map = remove-IsMap sid opening c.opening_map;
        active_count = c.active_count;
        reserved_count = omega (arith, at, total, w, c.reserved_count);
        within = omega (arith, c.within);
        narrow = c.narrow;
      }
