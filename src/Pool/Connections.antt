-- ===== src/Pool/Connections.antt =====
-- crates/pool/src/pool.rs and crates/pool/src/connection.rs: which connection a new stream goes to, and the
-- states of a connection. Times are ticks of one clock; the session's answers are fields.
pub mod Choice
use kanotls.Prelude.{
  ℕ, ◌+◌, ◌-◌, ◌/◌, max, min, List, [], ◌∷◌, Option, none, some, Bool, true, false, if◌then◌else◌,
  ltb, leb, ◌==◌, ◌&&◌, ◌||◌, not,
}
use kanotls.Flow.Receive.{saturating_add}

pub data ConnectionState : Type 0 where
  active : ConnectionState
  draining : ConnectionState
  closed : ConnectionState

pub record PooledConnection : Type 0 where
  pub seq : ℕ
  pub state : ConnectionState
  pub soft_ttl : ℕ
  pub idle_timeout : ℕ
  pub created_at : ℕ
  pub last_selected_tick : ℕ
  pub active_streams : ℕ
  pub buffered_stream_bytes : ℕ
  pub is_alive : Bool
  pub is_closing : Bool

abbrev pub is_active : ConnectionState → Bool
is_active active = true
is_active draining = false
is_active closed = false

-- The fields of `ConnectionScore` in their order.
abbrev pub score : PooledConnection → List ℕ
score c =
    c.active_streams ∷ c.buffered_stream_bytes ∷ c.last_selected_tick ∷ c.created_at ∷ c.seq ∷ []

-- The derived order.
unfoldable pub score_leb : List ℕ → List ℕ → Bool
score_leb [] ys = true
score_leb (x ∷ xs) [] = false
score_leb (x ∷ xs) (y ∷ ys) = ltb x y || ((x == y) && score_leb xs ys)

abbrev pub is_eligible : ℕ → PooledConnection → Bool
is_eligible max_streams_per_session c =
    is_active c.state
    && (c.is_alive && (not c.is_closing && ltb c.active_streams max_streams_per_session))

abbrev pub better : Option PooledConnection → PooledConnection → Option PooledConnection
better none entry = some entry
better (some best) entry = if score_leb (score best) (score entry) then some best else some entry

-- The loop over the connections, with the best one so far.
unfoldable pub select_from :
    ℕ → Option PooledConnection → List PooledConnection → Option PooledConnection
unfolding score_leb
select_from limit best [] = best
select_from limit best (entry ∷ entries) =
    let kept = select_from limit best entries in
    let compared = select_from limit (better best entry) entries in
    if is_eligible limit entry then compared else kept

unfoldable pub select_active_connection : ℕ → List PooledConnection → Option PooledConnection
unfolding select_from
select_active_connection limit connections = select_from limit none connections

-- How many connections are wanted for the streams in flight and those that wait.
unfoldable pub desired_active_connection_count : ℕ → ℕ → ℕ → ℕ → ℕ → ℕ
desired_active_connection_count max_streams target_pool_size waiters active_connections total =
    let stream_target = max max_streams 1 in
    let demand_streams = max (saturating_add waiters total) 1 in
    let desired = saturating_add demand_streams (stream_target - 1) / stream_target in
    if waiters == 0
    then 0
    else if active_connections == 0
    then min (min desired 1) target_pool_size
    else min desired target_pool_size

-- `compare_exchange`: only an active connection starts to drain.
unfoldable pub mark_draining : PooledConnection → PooledConnection
mark_draining c = if is_active c.state then record c { state = draining } else c

-- `force_close_connection`: the connection leaves the table.
unfoldable pub force_close_connection : PooledConnection → PooledConnection
force_close_connection c = record c { state = closed; is_alive = false }

-- An active connection that stays idle, or is too old, drains. `idle_since` is the time noted for it.
unfoldable pub drive_active : ℕ → Option ℕ → PooledConnection → PooledConnection × Option ℕ
unfolding mark_draining
drive_active now idle_since c =
    let started : ℕ = elim idle_since [ none ↦ now | some at ↦ at ] in
    let aged = if leb c.soft_ttl (now - c.created_at) then mark_draining c else c in
    if ltb 0 c.active_streams
    then (aged, none)
    else if leb c.idle_timeout (now - started)
    then (mark_draining c, some started)
    else (aged, some started)

-- One connection in `drive_connection_lifecycles`.
unfoldable pub drive : ℕ → Option ℕ → PooledConnection → PooledConnection × Option ℕ
unfolding drive_active force_close_connection
drive now idle_since c = if not c.is_alive then (c, idle_since) else elim c.state [
  | closed ↦ (c, idle_since)
  | active ↦
      if c.is_closing then (force_close_connection c, idle_since) else drive_active now idle_since c
  | draining ↦
      if c.is_closing
      then (force_close_connection c, idle_since)
      else if c.active_streams == 0
      then (force_close_connection c, idle_since)
      else (c, idle_since)
]
