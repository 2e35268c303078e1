-- ===== src/Wire.antt =====
-- Big-endian numbers, and signed integers as bit patterns: `from_be_bytes`, `to_be_bytes` and the
-- `as` casts between an integer type and its unsigned twin.
use kiro_trust.Prelude.{
  ℕ, ◌+◌, ◌*◌, ◌/◌, ◌%◌, ◌-◌, ◌<◌, ◌≡◌, refl, [], ◌∷◌, ◌++◌, ◌^◌, ltb, if◌then◌else◌, arith,
}
use kiro_trust.Text.{Bytes}

be : ℕ → Bytes → ℕ
be acc [] = acc
be acc (b ∷ bs) = be (acc * 256 + b) bs

-- `u16::from_be_bytes`, `u32::from_be_bytes` and `u64::from_be_bytes`, by the number of bytes
unfoldable pub from_be_bytes : Bytes → ℕ
unfolding be
from_be_bytes = be 0

abbrev byte_of : ℕ → ℕ → ℕ
byte_of n d = n / d % 256

unfoldable pub u16_to_be_bytes : ℕ → Bytes
u16_to_be_bytes n = byte_of n 0x100 ∷ n % 256 ∷ []

unfoldable pub u32_to_be_bytes : ℕ → Bytes
u32_to_be_bytes n = byte_of n 0x1000000 ∷ byte_of n 0x10000 ∷ byte_of n 0x100 ∷ n % 256 ∷ []

unfoldable pub u64_to_be_bytes : ℕ → Bytes
u64_to_be_bytes n = u32_to_be_bytes (n / 2 ^ 32) ++ u32_to_be_bytes (n % 2 ^ 32)

pub from_be_u16 : (n : ℕ) → n < 2 ^ 16 → from_be_bytes (u16_to_be_bytes n) ≡ n
unfolding from_be_bytes u16_to_be_bytes
from_be_u16 n h = omega arith

pub from_be_u32 : (n : ℕ) → n < 2 ^ 32 → from_be_bytes (u32_to_be_bytes n) ≡ n
unfolding from_be_bytes u32_to_be_bytes
from_be_u32 n h = omega arith

be-append : (acc : ℕ) (xs ys : Bytes) → be acc (xs ++ ys) ≡ be (be acc xs) ys
unfolding be
be-append acc [] ys = refl
be-append acc (x ∷ xs) ys = be-append (acc * 256 + x) xs ys

be_u32 : (acc n : ℕ) → n < 2 ^ 32 → be acc (u32_to_be_bytes n) ≡ acc * 2 ^ 32 + n
unfolding be u32_to_be_bytes
be_u32 acc n h = omega arith

pub from_be_u64 : (n : ℕ) → n < 2 ^ 64 → from_be_bytes (u64_to_be_bytes n) ≡ n
unfolding from_be_bytes u64_to_be_bytes
from_be_u64 n h = rw be-append (
    omega (
      arith,
      be_u32 0 (n / 2 ^ 32) (omega arith),
      be_u32 (be 0 (u32_to_be_bytes (n / 2 ^ 32))) (n % 2 ^ 32) (omega arith),
    ))

-- A signed integer: `negsuc n` is -(n + 1).
pub data ℤ : Type 0 where
  pos : ℕ → ℤ
  negsuc : ℕ → ℤ

-- The bits of a signed integer of `w` bits, and back (two's complement).
unfoldable pub to_bits : ℕ → ℤ → ℕ
to_bits w (pos n) = n
to_bits w (negsuc n) = 2 ^ w - 1 - n

unfoldable pub of_bits : ℕ → ℕ → ℤ
of_bits w u = if ltb u (2 ^ w / 2) then pos u else negsuc (2 ^ w - 1 - u)

abbrev pub FitsBits : ℕ → ℤ → Type 0
FitsBits w (pos n) = n < 2 ^ w / 2
FitsBits w (negsuc n) = n < 2 ^ w / 2

pub of_bits-to_bits : (w : ℕ) (z : ℤ) → FitsBits w z → of_bits w (to_bits w z) ≡ z
unfolding of_bits to_bits
of_bits-to_bits w (pos n) h = ground arith
of_bits-to_bits w (negsuc n) h = ground arith
