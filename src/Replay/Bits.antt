-- ===== src/Replay/Bits.antt =====
-- The binary digits of `&`, `|` and `<<` on BigInt, at every width.
use Prim.Native.Nat.{
  ℕ, zero, suc, ◌+◌, ◌-◌, ◌*◌, ◌/◌, ◌%◌, ◌^◌, ◌≤◌, ◌<◌, min, max, bit_and, bit_or, digits, bitwise,
  bit_and-bitwise, bit_or-bitwise,
}
use mathlib.Core.Path.{◌≡◌, refl, ap}
use native.Mathlib.Nat.{pow-suc, one-le-pow}
use native.Mathlib.Omega.{arith}

-- Digit i of x, from the lowest.
unfoldable pub bit : ℕ → ℕ → ℕ
bit x zero = x % 2
bit x (suc i) = bit (x / 2) i

pub bit_le_one : (x i : ℕ) → bit x i ≤ 1
unfolding bit
bit_le_one x zero = omega arith
bit_le_one x (suc i) = bit_le_one (x / 2) i

-- The native operations recur on a count of rounds; rounds beyond the number change nothing.
module _ (end : ℕ → ℕ) (op : ℕ → ℕ → ℕ) where
  spare_rounds : (k n a b : ℕ) → a ≤ n → n ≤ k → digits end op k a b ≡ digits end op n a b
  spare_rounds k n zero b p q = finished k n
    where
      finished : (k n : ℕ) → digits end op k zero b ≡ digits end op n zero b
      finished zero zero = refl
      finished zero (suc n) = refl
      finished (suc k) zero = refl
      finished (suc k) (suc n) = refl
  spare_rounds k zero (suc a) b p q = absurd (omega arith)
  spare_rounds zero (suc n) (suc a) b p q = absurd (omega arith)
  spare_rounds (suc k) (suc n) (suc a) b p q =
      omega (arith, spare_rounds k n (suc a / 2) (b / 2) (omega arith) (omega arith))

  lowest_digit :
      (a b : ℕ)
      → bitwise end op (suc a) b ≡ op (suc a % 2) (b % 2) + 2 * bitwise end op (suc a / 2) (b / 2)
  lowest_digit a b =
      omega (arith, spare_rounds a (suc a / 2) (suc a / 2) (b / 2) (omega arith) (omega arith))

and_digit : (a b : ℕ) → bit_and a b ≡ min (a % 2) (b % 2) + 2 * bit_and (a / 2) (b / 2)
and_digit zero b = omega (arith, bit_and-bitwise 0 b, bit_and-bitwise 0 (b / 2))
and_digit (suc a) b = omega (
  arith,
  bit_and-bitwise (suc a) b,
  bit_and-bitwise (suc a / 2) (b / 2),
  lowest_digit (λ _. 0) min a b,
)

or_digit : (a b : ℕ) → bit_or a b ≡ max (a % 2) (b % 2) + 2 * bit_or (a / 2) (b / 2)
or_digit zero b = omega (arith, bit_or-bitwise 0 b, bit_or-bitwise 0 (b / 2))
or_digit (suc a) b = omega (
  arith,
  bit_or-bitwise (suc a) b,
  bit_or-bitwise (suc a / 2) (b / 2),
  lowest_digit (λ rest. rest) max a b,
)

pub bit-bit_and : (i a b : ℕ) → bit (bit_and a b) i ≡ min (bit a i) (bit b i)
unfolding bit
bit-bit_and zero a b = omega (arith, and_digit a b)
bit-bit_and (suc i) a b =
    let half : bit_and a b / 2 ≡ bit_and (a / 2) (b / 2) = omega (arith, and_digit a b) in
    rw half (bit-bit_and i (a / 2) (b / 2))

pub bit-bit_or : (i a b : ℕ) → bit (bit_or a b) i ≡ max (bit a i) (bit b i)
unfolding bit
bit-bit_or zero a b = omega (arith, or_digit a b)
bit-bit_or (suc i) a b =
    let half : bit_or a b / 2 ≡ bit_or (a / 2) (b / 2) = omega (arith, or_digit a b) in
    rw half (bit-bit_or i (a / 2) (b / 2))

-- `x << d`.
abbrev pub shl : ℕ → ℕ → ℕ
shl x d = x * 2 ^ d

shl-suc : (x d : ℕ) → shl x (suc d) ≡ 2 * shl x d
shl-suc x d = omega (arith, ap (λ (t : ℕ). x * t) (pow-suc 2 d))

shl-zero : (x : ℕ) → shl x 0 ≡ x
shl-zero x = omega arith

sub-zero : (i : ℕ) → i - 0 ≡ i
sub-zero i = omega arith

pub bit-shl_high : (d x i : ℕ) → d ≤ i → bit (shl x d) i ≡ bit x (i - d)
unfolding bit
bit-shl_high zero x i h = rw shl-zero (rw sub-zero)
bit-shl_high (suc d) x zero h = elim h [ ]
bit-shl_high (suc d) x (suc i) h =
    let half : shl x (suc d) / 2 ≡ shl x d = omega (arith, shl-suc x d) in
    let less : suc i - suc d ≡ i - d = omega arith in
    rw (half, less) (bit-shl_high d x i (omega arith))

pub bit-shl_low : (d x i : ℕ) → i < d → bit (shl x d) i ≡ 0
unfolding bit
bit-shl_low zero x i h = elim h [ ]
bit-shl_low (suc d) x zero h = omega (arith, shl-suc x d)
bit-shl_low (suc d) x (suc i) h =
    let half : shl x (suc d) / 2 ≡ shl x d = omega (arith, shl-suc x d) in
    rw half (bit-shl_low d x i (omega arith))

-- A mask of k ones.
pub bit-mask : (k i : ℕ) → i < k → bit (shl 1 k - 1) i ≡ 1
unfolding bit
bit-mask zero i h = elim h [ ]
bit-mask (suc k) zero h = omega (arith, shl-suc 1 k, one-le-pow k 2)
bit-mask (suc k) (suc i) h =
    let half : (shl 1 (suc k) - 1) / 2 ≡ shl 1 k - 1 = omega (arith, shl-suc 1 k, one-le-pow k 2) in
    rw half (bit-mask k i (omega arith))

bit_and-zero : (k x : ℕ) → x ≤ k → bit_and x 0 ≡ 0
bit_and-zero k zero h = omega (arith, and_digit zero 0, bit_and-bitwise 0 0)
bit_and-zero zero (suc x) h = absurd (omega arith)
bit_and-zero (suc k) (suc x) h =
    omega (arith, and_digit (suc x) 0, bit_and-zero k (suc x / 2) (omega arith))

-- `x & (1n << k)` keeps digit k alone.
pub bit_and-shl_one : (k x : ℕ) → bit_and x (shl 1 k) ≡ bit x k * 2 ^ k
unfolding bit
bit_and-shl_one zero x = omega (arith, and_digit x 1, bit_and-zero (x / 2) (x / 2) (omega arith))
bit_and-shl_one (suc k) x =
    let half : shl 1 (suc k) / 2 ≡ shl 1 k = omega (arith, shl-suc 1 k) in
    let digits : bit_and x (shl 1 (suc k)) ≡ bit_and (x / 2) (shl 1 k) * 2 =
      omega (arith, and_digit x (shl 1 (suc k)), shl-suc 1 k, ap (bit_and (x / 2)) half) in
    omega
      (arith, digits, ap (λ (t : ℕ). bit (x / 2) k * t) (pow-suc 2 k), bit_and-shl_one k (x / 2))
