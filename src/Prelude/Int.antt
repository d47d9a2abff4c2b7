-- ===== src/Prelude/Int.antt =====
-- Go's signed 64-bit numbers (`int`, `int64`, `time.Duration`): integers over the native numbers,
-- with wrap-around written out where the code computes.
use Prim.Native.Nat.{ℕ, zero, suc, ◌+◌, ◌-◌, ◌*◌, ◌/◌, ◌%◌, ◌^◌, ◌<◌, ◌≤◌}
use mathlib.Core.Path.{◌≡◌, refl}
use mathlib.Core.Bool.{Bool, true}
use native.Mathlib.Omega.{arith}
use mano_reck.Prelude.Tests.{ltb, leb, if◌then◌else◌}

-- `negsuc n` is -(n + 1).
pub data ℤ : Type 0 where
  pos : ℕ → ℤ
  negsuc : ℕ → ℤ

abbrev pub pos_part : ℤ → ℕ
pos_part (pos n) = n
pos_part (negsuc n) = 0

abbrev pub neg_part : ℤ → ℕ
neg_part (pos n) = 0
neg_part (negsuc n) = suc n

abbrev pub ltb_ℤ : ℤ → ℤ → Bool
ltb_ℤ a b = ltb (pos_part a + neg_part b) (pos_part b + neg_part a)

abbrev pub leb_ℤ : ℤ → ℤ → Bool
leb_ℤ a b = leb (pos_part a + neg_part b) (pos_part b + neg_part a)

-- The signed value of a 64-bit pattern.
abbrev pub int64_of_bits : ℕ → ℤ
int64_of_bits r = if ltb r (2 ^ 63) then pos r else negsuc (2 ^ 64 - 1 - r)

-- `x * 2` in two's complement.
unfoldable pub double64 : ℤ → ℤ
double64 (pos n) = int64_of_bits (n * 2 % 2 ^ 64)
double64 (negsuc n) = int64_of_bits ((2 ^ 64 - (n * 2 + 2) % 2 ^ 64) % 2 ^ 64)

-- `x / 2`, which Go truncates toward zero.
abbrev pub half64 : ℤ → ℤ
half64 (pos n) = pos (n / 2)
half64 (negsuc zero) = pos 0
half64 (negsuc (suc n)) = negsuc (n / 2)

pub double64_pos : (n : ℕ) → n * 2 < 2 ^ 63 → double64 (pos n) ≡ pos (n * 2)
unfolding double64
double64_pos n h = ground arith

-- `x * k` for a constant k, in two's complement.
unfoldable pub mul64 : ℤ → ℕ → ℤ
mul64 (pos n) k = int64_of_bits (n * k % 2 ^ 64)
mul64 (negsuc n) k = int64_of_bits ((2 ^ 64 - suc n * k % 2 ^ 64) % 2 ^ 64)

pub mul64_pos : (n k : ℕ) → n * k < 2 ^ 63 → mul64 (pos n) k ≡ pos (n * k)
unfolding mul64
mul64_pos n k h = ground arith

-- The signed value of a 32-bit pattern, and the conversion int32(x).
abbrev pub int32_of_bits : ℕ → ℤ
int32_of_bits r = if ltb r (2 ^ 31) then pos r else negsuc (2 ^ 32 - 1 - r)

unfoldable pub int32 : ℤ → ℤ
int32 (pos n) = int32_of_bits (n % 2 ^ 32)
int32 (negsuc n) = int32_of_bits ((2 ^ 32 - suc n % 2 ^ 32) % 2 ^ 32)

pub int32_pos : (n : ℕ) → n < 2 ^ 31 → int32 (pos n) ≡ pos n
unfolding int32
int32_pos n h = ground arith

-- An integer between two natural numbers.
pub between :
    (a b : ℕ) (v : ℤ)
    → leb_ℤ (pos a) v ≡ true
    → leb_ℤ v (pos b) ≡ true
    → (n : ℕ) × (v ≡ pos n) × (a ≤ n) × (n ≤ b)
between a b (pos n) lo hi = (n, refl, ground arith, ground arith)
between a b (negsuc n) lo hi = absurd (ground arith)
