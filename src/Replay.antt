-- ===== src/Replay.antt =====
-- protocol/src/replay-window.ts: the sliding window of sequence numbers, `acceptSequence`.
-- `bitmap << n` is `shl`; `1n << WINDOW_SIZE` stays shut in proofs.
pub mod Bits
pub mod Window
pub mod Refinement
pub mod Streams
mod Tests
use Prim.Native.Nat.{bit_and, bit_or}
use agent_life.Shared.{
  ℕ, zero, suc, ◌+◌, ◌-◌, ◌^◌, Bool, true, false, not, ◌||◌, Option, none, some, List, [], ◌∷◌, ltb,
  leb, ◌==◌, if◌then◌else◌,
}
use agent_life.Shared.Int.{ℤ, pos, negsuc, u64_max}
use Bits.{shl}

abbrev pub window_size : ℕ
window_size = 1024

unfoldable pub window_mask : ℕ
window_mask = shl 1 window_size - 1

pub record ReplayWindowState : Type 0 where
  pub highest_seen : Option ℕ
  pub seen_bitmap : ℕ

pub data ReplayDecision : Type 0 where
  accept : ReplayWindowState → ReplayDecision
  reject : ReplayDecision

-- A space without a window starts from this state.
abbrev pub empty_window : ReplayWindowState
empty_window = record { highest_seen = none; seen_bitmap = 0 }

-- The tests of a sequence number that is not above the highest.
unfoldable pub within : ℕ → ℕ → ℕ → ReplayDecision
within high bitmap sequence =
    let offset = high - sequence in
    if leb window_size offset
    then reject
    else if not (bit_and bitmap (shl 1 offset) == 0)
    then reject
    else accept (record {
      highest_seen = some high;
      seen_bitmap = bit_and (bit_or bitmap (shl 1 offset)) window_mask;
    })

unfoldable pub slide : ℕ → ℕ → ℕ → ReplayDecision
slide high bitmap sequence =
    let delta = sequence - high in
    let shifted = if leb window_size delta then 0 else bit_and (shl bitmap delta) window_mask in
    accept (record { highest_seen = some sequence; seen_bitmap = bit_or shifted 1 })

unfoldable pub place : Option ℕ → ℕ → ℕ → ReplayDecision
unfolding within slide
place none bitmap sequence = accept (record { highest_seen = some sequence; seen_bitmap = 1 })
place (some high) bitmap sequence =
    if ltb high sequence then slide high bitmap sequence else within high bitmap sequence

unfoldable pub accept_sequence : ReplayWindowState → ℤ → ReplayDecision
unfolding place
accept_sequence state (negsuc _) = reject
accept_sequence state (pos sequence) =
    if ltb u64_max sequence then reject else place state.highest_seen state.seen_bitmap sequence
