-- ===== src/Replay/Window.antt =====
-- What the bitmap holds: digit i stands for the number i below the highest.
use Prim.Native.Nat.{bit_and}
use agent_life.Shared.{ℕ, zero, suc, ◌-◌, ◌<◌, ◌≡◌, refl, arith, ◌==◌, if◌then◌else◌, not}
use native.Mathlib.Nat.{one-le-pow}
use agent_life.Replay.{window_size, window_mask}
use agent_life.Replay.Bits.{
  bit, bit_le_one, shl, bit-bit_and, bit-shl_high, bit-shl_low, bit-mask, bit_and-shl_one,
}

bit-window_mask : (i : ℕ) → i < window_size → bit window_mask i ≡ 1
unfolding window_mask
bit-window_mask i h = bit-mask window_size i h

pub bit-masked : (x i : ℕ) → i < window_size → bit (bit_and x window_mask) i ≡ bit x i
bit-masked x i h = omega (arith, bit-bit_and i x window_mask, bit-window_mask i h, bit_le_one x i)

pub bit-zero : (i : ℕ) → bit 0 i ≡ 0
unfolding bit
bit-zero zero = refl
bit-zero (suc i) = bit-zero i

pub bit-one : (i : ℕ) → bit 1 i ≡ (if i == 0 then 1 else 0)
unfolding bit
bit-one zero = refl
bit-one (suc i) = ground (arith, bit-zero i)

pub bit-shl_one : (k i : ℕ) → bit (shl 1 k) i ≡ (if k == i then 1 else 0)
bit-shl_one k i = ground (arith, bit-shl_low k 1 i, bit-shl_high k 1 i, bit-one (i - k))

-- `(bitmap & bit) !== 0n` reads digit k.
pub test-bit : (x k : ℕ) → not (bit_and x (shl 1 k) == 0) ≡ (bit x k == 1)
test-bit x k = ground (arith, bit_and-shl_one k x, bit_le_one x k, one-le-pow k 2)
