-- ===== src/Prelude/Int.antt =====
-- Signed machine integers: `v as i8` and its like.
use Prim.Native.Nat.{ℕ, ◌-◌, ◌*◌, ◌%◌, ◌^◌, ◌<◌}
use mathlib.Core.Path.{◌≡◌}
use native.Mathlib.Omega.{arith}
use marlinspike_dpi.Prelude.Tests.{ltb, if◌then◌else◌}

-- `negsuc n` is the number -(n + 1).
pub data ℤ : Type 0 where
  pos : ℕ → ℤ
  negsuc : ℕ → ℤ

-- The two's complement reading of the low `w` bits.
abbrev pub as_signed : ℕ → ℕ → ℤ
as_signed w v =
    if ltb (v % 2 ^ w) (2 ^ (w - 1)) then pos (v % 2 ^ w) else negsuc (2 ^ w - 1 - v % 2 ^ w)

-- The number lies in the signed range below `bound`.
abbrev pub IsWithin : ℕ → ℤ → Type 0
IsWithin bound (pos n) = n < bound
IsWithin bound (negsuc n) = n < bound

-- The sign-extended wire form of a number in a field with `size` values.
abbrev pub to_wire : ℕ → ℤ → ℕ
to_wire size (pos n) = n
to_wire size (negsuc n) = size - 1 - n

pub as_signed8_extended : (z : ℤ) → IsWithin 0x80 z → as_signed 8 (to_wire 0x100000000 z) ≡ z
as_signed8_extended (pos n) h = ground arith
as_signed8_extended (negsuc n) h = ground arith

pub as_signed16_extended : (z : ℤ) → IsWithin 0x8000 z → as_signed 16 (to_wire 0x100000000 z) ≡ z
as_signed16_extended (pos n) h = ground arith
as_signed16_extended (negsuc n) h = ground arith

pub as_signed32 : (z : ℤ) → IsWithin 0x80000000 z → as_signed 32 (to_wire 0x100000000 z) ≡ z
as_signed32 (pos n) h = ground arith
as_signed32 (negsuc n) h = ground arith

pub as_signed64 :
    (z : ℤ) → IsWithin 0x8000000000000000 z → as_signed 64 (to_wire 0x10000000000000000 z) ≡ z
as_signed64 (pos n) h = ground arith
as_signed64 (negsuc n) h = ground arith

pub as_signed8 : (z : ℤ) → IsWithin 0x80 z → as_signed 8 (to_wire 0x100 z) ≡ z
as_signed8 (pos n) h = ground arith
as_signed8 (negsuc n) h = ground arith

pub as_signed16 : (z : ℤ) → IsWithin 0x8000 z → as_signed 16 (to_wire 0x10000 z) ≡ z
as_signed16 (pos n) h = ground arith
as_signed16 (negsuc n) h = ground arith

-- The wire form fits its field.
pub to_wire-lt : (half : ℕ) (z : ℤ) → IsWithin half z → to_wire (2 * half) z < 2 * half
to_wire-lt half (pos n) h = omega (arith, h)
to_wire-lt half (negsuc n) h = omega (arith, h)
