-- ===== src/Tests/Pools.antt =====
-- The pool (crates/pool/src/behavior.rs and pool.rs) at concrete inputs.
use kanotls.Prelude.{◌≡◌, ◌⊎◌, refl, some, none, true, false, [], ◌∷◌, List, ℕ}
use kanotls.Pool.{splitmix64}
use kanotls.Pool.Connections.{
  PooledConnection, draining, active, select_active_connection, drive, force_close_connection,
}
use kanotls.Pool.Connections.Choice.{IsChoice, select_active_connection-IsChoice, drive_ends}

-- The first output of the generator that starts at 0.
splitmix64_runs : splitmix64 0 ≡ 16294208416658607535
unfolding splitmix64
splitmix64_runs = refl

abbrev psk : List ℕ
psk = 107 ∷ 101 ∷ 121 ∷ []

abbrev a_connection : PooledConnection
a_connection = record {
  seq = 1;
  state = draining;
  soft_ttl = 100;
  idle_timeout = 20;
  created_at = 0;
  last_selected_tick = 4;
  active_streams = 0;
  buffered_stream_bytes = 0;
  is_alive = true;
  is_closing = false;
}

abbrev some_connections : List PooledConnection
some_connections =
    a_connection
    ∷ record a_connection { seq = 2; state = active; active_streams = 3 }
    ∷ record a_connection { seq = 3; state = active; active_streams = 1; buffered_stream_bytes = 9 }
    ∷ []

-- The second active one has fewer streams.
select_active_connection_runs :
    select_active_connection 256 some_connections
    ≡ some (record a_connection {
      seq = 3;
      state = active;
      active_streams = 1;
      buffered_stream_bytes = 9;
    })
unfolding select_active_connection
select_active_connection_runs = refl

select_active_connection-IsChoice_example :
    IsChoice 256 some_connections (select_active_connection 256 some_connections)
select_active_connection-IsChoice_example = select_active_connection-IsChoice 256 some_connections

a_connection_ends : (drive 50 none a_connection).0.is_alive ≡ false
unfolding drive force_close_connection
a_connection_ends = refl

drive_ends_example : (a_connection.is_closing ≡ true) ⊎ (a_connection.active_streams ≡ 0)
drive_ends_example = drive_ends 50 none a_connection refl a_connection_ends
