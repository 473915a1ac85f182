-- ===== src/Pool.antt =====
-- crates/pool/src/behavior.rs: the pool's sizes and delays, drawn from seeds of 64 bits. Durations are
-- their milliseconds; the fixed times of the monitor and of acquiring are left out.
pub mod Ranges
pub mod Connections
use Prim.Native.Nat.{bit_xor}
use kanotls.Prelude.{
  ℕ, zero, suc, ◌+◌, ◌-◌, ◌*◌, ◌/◌, ◌%◌, ◌^◌, max, min, List, [], ◌∷◌, ◌++◌, Bool, true, false,
  if◌then◌else◌, leb, ◌==◌,
}

abbrev pub wrapping_add : ℕ → ℕ → ℕ
wrapping_add a b = (a + b) % 2 ^ 64

abbrev pub wrapping_mul : ℕ → ℕ → ℕ
wrapping_mul a b = a * b % 2 ^ 64

-- The three rounds of splitmix64.
abbrev spread : ℕ → ℕ
spread x = wrapping_add x 11400714819323198485

abbrev mixed : ℕ → ℕ
mixed x = wrapping_mul (bit_xor x (x / 2 ^ 30)) 13787848793156543929

abbrev mixed_again : ℕ → ℕ
mixed_again x = wrapping_mul (bit_xor x (x / 2 ^ 27)) 10723151780598845931

abbrev folded : ℕ → ℕ
folded x = bit_xor x (x / 2 ^ 31)

unfoldable pub splitmix64 : ℕ → ℕ
splitmix64 x = folded (mixed_again (mixed (spread x)))

unfoldable pub hash_bytes : ℕ → List ℕ → ℕ
hash_bytes seed [] = seed
hash_bytes seed (byte ∷ bytes) = hash_bytes (wrapping_mul (bit_xor seed byte) 1099511628211) bytes

unfoldable pub derive_seed : ℕ → ℕ → ℕ
unfolding splitmix64
derive_seed seed salt = splitmix64 (bit_xor seed (wrapping_mul salt 11400714819323198485))

-- `seeded_usize_inclusive` and `seeded_u64_inclusive`, on 64-bit machines the same function.
unfoldable pub seeded_inclusive : ℕ → ℕ → ℕ → ℕ
unfolding splitmix64
seeded_inclusive seed low high =
    if leb high low then low else low + splitmix64 seed % (high - low + 1)

abbrev pub min_initial_connections : ℕ
min_initial_connections = 1

abbrev pub max_initial_connections : ℕ
max_initial_connections = 3

pub record PoolBehaviorConfig : Type 0 where
  pub min_target_pool_size : ℕ
  pub max_target_pool_size : ℕ
  pub min_initial : ℕ
  pub max_initial : ℕ
  pub min_startup_jitter_ms : ℕ
  pub max_startup_jitter_ms : ℕ

unfoldable pub from_psk : List ℕ → List ℕ → PoolBehaviorConfig
unfolding hash_bytes seeded_inclusive
from_psk psk install_salt =
    let h = hash_bytes (hash_bytes 322420463 psk) install_salt in
    let min_target = seeded_inclusive h 4 8 in
    let min_jitter = seeded_inclusive (bit_xor h 2) 50 300 in
    record {
      min_target_pool_size = min_target;
      max_target_pool_size = seeded_inclusive (bit_xor h 1) (min_target + 2) 16;
      min_initial = min_initial_connections;
      max_initial = max_initial_connections;
      min_startup_jitter_ms = min_jitter;
      max_startup_jitter_ms = seeded_inclusive (bit_xor h 3) (min_jitter + 300) 2500;
    }

pub record ResolvedPoolBehavior : Type 0 where
  pub seed : ℕ
  pub target_pool_size : ℕ
  pub initial_connection_count : ℕ
  pub spawn_cluster_len : ℕ

-- `resolve`, on the seed of its context.
unfoldable pub resolve : PoolBehaviorConfig → ℕ → ResolvedPoolBehavior
unfolding seeded_inclusive derive_seed
resolve config seed =
    let target =
      seeded_inclusive (derive_seed seed 16) config.min_target_pool_size
        config.max_target_pool_size in
    record {
      seed = seed;
      target_pool_size = target;
      initial_connection_count =
          seeded_inclusive (derive_seed seed 17) (min config.min_initial (max target 1))
            (min config.max_initial (max target 1));
      spawn_cluster_len = seeded_inclusive (derive_seed seed 20) 2 4;
    }

abbrev pub rotate_left_11 : ℕ → ℕ
rotate_left_11 x = x * 2 ^ 11 % 2 ^ 64 + x / 2 ^ 53

abbrev pub saturating_add : ℕ → ℕ → ℕ
saturating_add a b = min (a + b) 18446744073709551615

abbrev pub burst_gap_max : PoolBehaviorConfig → ℕ
burst_gap_max config =
    max (saturating_add config.min_startup_jitter_ms config.max_startup_jitter_ms / 2)
      config.min_startup_jitter_ms

-- The gap in front of the connection of a slot.
unfoldable pub gap_ms : PoolBehaviorConfig → ResolvedPoolBehavior → ℕ → ℕ
unfolding seeded_inclusive derive_seed
gap_ms config behavior slot =
    let gap_seed = derive_seed (bit_xor behavior.seed (rotate_left_11 slot)) 48 in
    if (slot + 1) % behavior.spawn_cluster_len == 0
    then seeded_inclusive gap_seed (burst_gap_max config) config.max_startup_jitter_ms
    else seeded_inclusive gap_seed config.min_startup_jitter_ms (burst_gap_max config)

-- The rest of the loop, from a slot and a total on.
unfoldable pub delays_from : PoolBehaviorConfig → ResolvedPoolBehavior → ℕ → ℕ → ℕ → List ℕ
unfolding gap_ms
delays_from config behavior slot total_ms zero = []
delays_from config behavior slot total_ms (suc count) =
    let total = saturating_add total_ms (gap_ms config behavior slot) in
    total ∷ delays_from config behavior (slot + 1) total count

unfoldable pub staggered_delays : PoolBehaviorConfig → ResolvedPoolBehavior → ℕ → ℕ → List ℕ
unfolding delays_from
staggered_delays config behavior start_slot count = delays_from config behavior start_slot 0 count
