-- ===== src/Tests/Sizes.antt =====
-- The opening sizes (crates/tunnel/src/control_size.rs) at a concrete input.
use kanotls.Prelude.{◌≡◌, refl}
use kanotls.ControlSize.{settings_small_wire}

settings_small_wire_runs : settings_small_wire ≡ 51
settings_small_wire_runs = refl
