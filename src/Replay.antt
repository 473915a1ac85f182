-- ===== src/Replay.antt =====
-- crates/tunnel/src/server/replay.rs: the sliding window over the sequence numbers of one session.
pub mod Ephemeral
pub mod Window
pub mod Once
pub mod Counter
use Prim.Native.Nat.{bit_and, bit_or}
use kanotls.Prelude.{
  ℕ, ◌+◌, ◌-◌, ◌*◌, ◌%◌, ◌^◌, List, [], ◌∷◌, Bool, true, false, if◌then◌else◌, ltb, leb, ◌==◌, not,
}

-- Two u64; the numbers are at most 24 bits wide.
pub record SlidingWindow : Type 0 where
  pub highest_seq : ℕ
  pub bitmap : ℕ

unfoldable pub new_window : ℕ → SlidingWindow
new_window seq = record { highest_seq = seq; bitmap = 1 }

unfoldable pub check : SlidingWindow → ℕ → Bool
check w seq =
    if ltb w.highest_seq seq
    then true
    else if leb 64 (w.highest_seq - seq)
    then false
    else bit_and w.bitmap (2 ^ (w.highest_seq - seq)) == 0

-- The bitmap moved along by `diff < 64` numbers, as a u64.
abbrev pub shifted : ℕ → ℕ → ℕ
shifted bitmap diff = bit_or (bitmap * 2 ^ diff % 2 ^ 64) 1

unfoldable pub commit : SlidingWindow → ℕ → Bool × SlidingWindow
commit w seq =
    if ltb w.highest_seq seq
    then (
      true,
      record {
        highest_seq = seq;
        bitmap = if leb 64 (seq - w.highest_seq) then 1 else shifted w.bitmap (seq - w.highest_seq);
      },
    )
    else if leb 64 (w.highest_seq - seq)
    then (false, w)
    else let offset_bit = 2 ^ (w.highest_seq - seq) in
      if not (bit_and w.bitmap offset_bit == 0)
      then (false, w)
      else (true, record w { bitmap = bit_or w.bitmap offset_bit })
