-- ===== src/Prelude/Bytes.antt =====
-- Words as bytes: `to_be_bytes`, `from_be_bytes` and `from_le_bytes`.
use native.Mathlib.Omega.{arith}
use mathlib.Core.Path.{◌≡◌, refl, ap}
use mathlib.Core.Bool.{Bool, true, false, ◌&&◌, ◌||◌}
use marlinspike_dpi.Prelude.Lists.{length}
use marlinspike_dpi.Prelude.Tests.{leb, ltb, eqb, if◌then◌else◌}
use Prim.Native.Nat.{ℕ, zero, suc, ◌+◌, ◌*◌, ◌/◌, ◌%◌, ◌^◌, ◌<◌}
use mathlib.Core.List.{List, [], ◌∷◌}

-- The `n` low bytes of a word, the highest first.
abbrev pub be_bytes : ℕ → ℕ → List ℕ
be_bytes zero v = []
be_bytes (suc n) v = (v / 256 ^ n % 256) ∷ be_bytes n v

abbrev pub from_be16 : ℕ → ℕ → ℕ
from_be16 a b = a * 256 + b

abbrev pub from_le16 : ℕ → ℕ → ℕ
from_le16 a b = b * 256 + a

abbrev pub from_be32 : ℕ → ℕ → ℕ → ℕ → ℕ
from_be32 a b c d = ((a * 256 + b) * 256 + c) * 256 + d

abbrev pub from_le32 : ℕ → ℕ → ℕ → ℕ → ℕ
from_le32 a b c d = ((d * 256 + c) * 256 + b) * 256 + a

abbrev pub IsByte : ℕ → Type 0
IsByte b = b < 256

-- The `n` low bytes of a word, the lowest first.
abbrev pub le_bytes : ℕ → ℕ → List ℕ
le_bytes zero v = []
le_bytes (suc n) v = (v % 256) ∷ le_bytes n (v / 256)

-- `from_le_bytes`
abbrev pub from_le : List ℕ → ℕ
from_le [] = 0
from_le (b ∷ bs) = b + 256 * from_le bs

pub from_le-le_bytes : (n v : ℕ) → v < 256 ^ n → from_le (le_bytes n v) ≡ v
from_le-le_bytes zero v h = omega arith
from_le-le_bytes (suc n) v h = omega (arith, from_le-le_bytes n (v / 256) (omega (arith, h)))

pub length-le_bytes : (n v : ℕ) → length (le_bytes n v) ≡ n
length-le_bytes zero v = refl
length-le_bytes (suc n) v = ap suc (length-le_bytes n (v / 256))

-- `std::str::from_utf8`: how many bytes follow a lead byte, and the range of the first of them.
abbrev pub is_lead : ℕ → Bool
is_lead b = ltb b 0x80 || (leb 0xC2 b && leb b 0xF4)

abbrev pub followers : ℕ → ℕ
followers b = if ltb b 0x80 then 0 else if ltb b 0xE0 then 1 else if ltb b 0xF0 then 2 else 3

abbrev pub first_low : ℕ → ℕ
first_low b = if eqb b 0xE0 then 0xA0 else if eqb b 0xF0 then 0x90 else 0x80

abbrev pub first_high : ℕ → ℕ
first_high b = if eqb b 0xED then 0x9F else if eqb b 0xF4 then 0x8F else 0xBF

unfoldable pub utf8_from : ℕ → ℕ → ℕ → List ℕ → Bool
utf8_from zero low high [] = true
utf8_from (suc n) low high [] = false
utf8_from zero low high (b ∷ bs) =
    is_lead b && utf8_from (followers b) (first_low b) (first_high b) bs
utf8_from (suc n) low high (b ∷ bs) = leb low b && leb b high && utf8_from n 0x80 0xBF bs

abbrev pub is_utf8 : List ℕ → Bool
is_utf8 bytes = utf8_from 0 0 0 bytes
