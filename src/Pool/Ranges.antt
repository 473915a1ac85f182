-- ===== src/Pool/Ranges.antt =====
-- Whatever the seeds, the sizes and the delays stay in their ranges.
use Prim.Native.Nat.{bit_xor}
use kanotls.Prelude.{
  ℕ, zero, suc, ◌+◌, ◌*◌, ◌^◌, ◌≤◌, ◌<◌, ◌≡◌, refl, max, min, List, [], ◌∷◌, length, arith,
}
use kanotls.Pool.{
  derive_seed, hash_bytes, seeded_inclusive, PoolBehaviorConfig, from_psk, ResolvedPoolBehavior,
  resolve, gap_ms, delays_from, staggered_delays, burst_gap_max, rotate_left_11,
}

seeded_range :
    (seed low high : ℕ)
    → low ≤ high
    → (low ≤ seeded_inclusive seed low high) × (seeded_inclusive seed low high ≤ high)
unfolding seeded_inclusive
seeded_range seed low high h = (ground arith, ground arith)

-- The ranges that a configuration keeps.
record IsConfig (c : PoolBehaviorConfig) : Type 0 where
  target_low : 4 ≤ c.min_target_pool_size
  target_order : c.min_target_pool_size + 2 ≤ c.max_target_pool_size
  target_high : c.max_target_pool_size ≤ 16
  initial : (c.min_initial ≡ 1) × (c.max_initial ≡ 3)
  jitter_low : 50 ≤ c.min_startup_jitter_ms
  jitter_order : c.min_startup_jitter_ms + 300 ≤ c.max_startup_jitter_ms
  jitter_high : c.max_startup_jitter_ms ≤ 2500

from_psk-IsConfig : (psk salt : List ℕ) → IsConfig (from_psk psk salt)
unfolding from_psk
from_psk-IsConfig psk salt =
    let h = hash_bytes (hash_bytes 322420463 psk) salt in
    let t = seeded_range h 4 8 (omega arith) in
    let u = seeded_range (bit_xor h 1) (seeded_inclusive h 4 8 + 2) 16 (omega (arith, t)) in
    let j = seeded_range (bit_xor h 2) 50 300 (omega arith) in
    let k =
      seeded_range (bit_xor h 3) (seeded_inclusive (bit_xor h 2) 50 300 + 300) 2500
        (omega (arith, j)) in
    record {
      target_low = t.0;
      target_order = u.0;
      target_high = u.1;
      initial = (refl, refl);
      jitter_low = j.0;
      jitter_order = k.0;
      jitter_high = k.1;
    }

-- Whatever the key, the salt and the seed: a pool aims at 4 to 16 connections, starts with 1 to 3 of
-- them and not with more than it aims at, and opens them in clusters of 2 to 4.
pub resolve_ranges :
    (psk salt : List ℕ) (seed : ℕ)
    → (4 ≤ (resolve (from_psk psk salt) seed).target_pool_size)
      × ((resolve (from_psk psk salt) seed).target_pool_size ≤ 16)
      × (1 ≤ (resolve (from_psk psk salt) seed).initial_connection_count)
      × ((resolve (from_psk psk salt) seed).initial_connection_count ≤ 3)
      × ((resolve (from_psk psk salt) seed).initial_connection_count
          ≤ (resolve (from_psk psk salt) seed).target_pool_size)
      × (2 ≤ (resolve (from_psk psk salt) seed).spawn_cluster_len)
      × ((resolve (from_psk psk salt) seed).spawn_cluster_len ≤ 4)
unfolding resolve
resolve_ranges psk salt seed =
    let c = from_psk psk salt in
    let v = from_psk-IsConfig psk salt in
    let t =
      seeded_range (derive_seed seed 16) c.min_target_pool_size c.max_target_pool_size
        (omega (arith, v.target_order)) in
    let target = (resolve c seed).target_pool_size in
    let i =
      seeded_range (derive_seed seed 17) (min c.min_initial (max target 1))
        (min c.max_initial (max target 1)) (omega (arith, v.initial)) in
    let s = seeded_range (derive_seed seed 20) 2 4 (omega arith) in
    (
      omega (arith, t, v.target_low),
      omega (arith, t, v.target_high),
      omega (arith, i, t, v.target_low, v.initial),
      omega (arith, i, t, v.initial),
      omega (arith, i, t, v.target_low, v.initial),
      s.0,
      s.1,
    )

gap_range :
    (c : PoolBehaviorConfig) (b : ResolvedPoolBehavior) (slot : ℕ)
    → IsConfig c
    → (c.min_startup_jitter_ms ≤ gap_ms c b slot) × (gap_ms c b slot ≤ c.max_startup_jitter_ms)
unfolding gap_ms
gap_range c b slot v =
    let seed = derive_seed (bit_xor b.seed (rotate_left_11 slot)) 48 in
    let ordered = v.jitter_order in
    let small = v.jitter_high in
    let above =
      seeded_range seed (burst_gap_max c) c.max_startup_jitter_ms (omega (arith, ordered, small)) in
    let below = seeded_range seed c.min_startup_jitter_ms (burst_gap_max c) (omega arith) in
    (ground (arith, above, below), ground (arith, above, below, ordered, small))

-- Each delay is the one before it and a gap of `low` to `high`.
abbrev pub IsPaced : ℕ → ℕ → ℕ → List ℕ → Type 0
IsPaced low high before [] = Unit {0}
IsPaced low high before (d ∷ ds) = (before + low ≤ d) × (d ≤ before + high) × IsPaced low high d ds

delays_from-IsPaced :
    (c : PoolBehaviorConfig) (b : ResolvedPoolBehavior) (slot before count : ℕ)
    → IsConfig c
    → before + count * 2500 < 2 ^ 64
    → IsPaced c.min_startup_jitter_ms c.max_startup_jitter_ms before
        (delays_from c b slot before count)
      × (length (delays_from c b slot before count) ≡ count)
unfolding delays_from
delays_from-IsPaced c b slot before zero v h = (tt, refl)
delays_from-IsPaced c b slot before (suc count) v h =
    let g = gap_range c b slot v in
    let small = v.jitter_high in
    let next = min (before + gap_ms c b slot) 18446744073709551615 in
    let more = delays_from-IsPaced c b (slot + 1) next count v (omega (arith, g, small)) in
    ((omega (arith, g, small), omega (arith, g, small), more.0), omega (arith, more.1))

-- Whatever the key, the salt and the seed, as long as the count is below 2 ^ 52: there is a delay for
-- each connection, and from one to the next, and in front of the first, lies a gap between the
-- configuration's bounds, which are at least 50 and at most 2500 milliseconds.
pub staggered_delays-IsPaced :
    (psk salt : List ℕ) (seed start_slot count : ℕ)
    → count < 2 ^ 52
    → IsPaced
        (from_psk psk salt).min_startup_jitter_ms
        (from_psk psk salt).max_startup_jitter_ms
        0
        (staggered_delays (from_psk psk salt) (resolve (from_psk psk salt) seed) start_slot count)
      × (length (
            staggered_delays
              (from_psk psk salt)
              (resolve (from_psk psk salt) seed)
              start_slot
              count)
          ≡ count)
      × (50 ≤ (from_psk psk salt).min_startup_jitter_ms)
      × ((from_psk psk salt).max_startup_jitter_ms ≤ 2500)
unfolding staggered_delays
staggered_delays-IsPaced psk salt seed start_slot count h =
    let v = from_psk-IsConfig psk salt in
    let c = from_psk psk salt in
    let (paced, all) = delays_from-IsPaced c (resolve c seed) start_slot 0 count v (omega arith) in
    (paced, all, v.jitter_low, v.jitter_high)
