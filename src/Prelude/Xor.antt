-- ===== src/Prelude/Xor.antt =====
-- The operator `^` of the source on words: its digits, and the laws of exclusive or.
use Prim.Native.Nat.{
  ℕ, zero, suc, ◌+◌, ◌*◌, ◌/◌, ◌%◌, ◌^◌, ◌≤◌, ◌<◌, bit_xor, differ, digits, bit_xor-bitwise,
}
use mathlib.Core.Path.{◌≡◌, refl, sym, ap, ◌∙◌}
use native.Mathlib.Omega.{arith}

abbrev kept : ℕ → ℕ
kept y = y

-- The count of digits to go does not matter once it covers the first number.
count_irrelevant :
    (x y k l : ℕ) → x ≤ k → x ≤ l → digits kept differ k x y ≡ digits kept differ l x y
count_irrelevant zero y zero zero h g = refl
count_irrelevant zero y zero (suc l) h g = refl
count_irrelevant zero y (suc k) zero h g = refl
count_irrelevant zero y (suc k) (suc l) h g = refl
count_irrelevant (suc x) y zero l h g = absurd (omega (arith, h))
count_irrelevant (suc x) y (suc k) zero h g = absurd (omega (arith, g))
count_irrelevant (suc x) y (suc k) (suc l) h g =
    let below = count_irrelevant (suc x / 2) (y / 2) k l (omega (arith, h)) (omega (arith, g)) in
    ap (λ d. d * 2 + differ (suc x % 2) (y % 2)) below

differ_digits : (a b : ℕ) → a < 2 → b < 2 → differ a b ≡ (a + b) % 2
differ_digits zero b h g = omega (arith, g)
differ_digits (suc zero) zero h g = refl
differ_digits (suc zero) (suc zero) h g = refl
differ_digits (suc zero) (suc (suc b)) h g = absurd (omega (arith, g))
differ_digits (suc (suc a)) b h g = absurd (omega (arith, h))

differ_mod : (x y : ℕ) → differ (x % 2) (y % 2) ≡ (x % 2 + y % 2) % 2
differ_mod x y = differ_digits (x % 2) (y % 2) (omega arith) (omega arith)

xor_zero : (y : ℕ) → bit_xor 0 y ≡ y
xor_zero y = bit_xor-bitwise 0 y

-- One digit at a time, the lowest first.
pub xor_step : (x y : ℕ) → bit_xor x y ≡ bit_xor (x / 2) (y / 2) * 2 + (x % 2 + y % 2) % 2
xor_step zero y = omega (arith, xor_zero y, xor_zero (y / 2))
xor_step (suc x) y =
    bit_xor-bitwise (suc x) y
    ∙ (ap (λ d. d * 2 + differ (suc x % 2) (y % 2))
          (count_irrelevant (suc x / 2) (y / 2) x (suc x / 2) (omega arith) (omega arith)
            ∙ sym (bit_xor-bitwise (suc x / 2) (y / 2)))
        ∙ ap (λ d. bit_xor (suc x / 2) (y / 2) * 2 + d) (differ_mod (suc x) y))

pub xor_half : (x y : ℕ) → bit_xor x y / 2 ≡ bit_xor (x / 2) (y / 2)
xor_half x y = omega (arith, xor_step x y)

xor_low : (x y : ℕ) → bit_xor x y % 2 ≡ (x % 2 + y % 2) % 2
xor_low x y = omega (arith, xor_step x y)

pub xor_lt : (n x y : ℕ) → x < 2 ^ n → y < 2 ^ n → bit_xor x y < 2 ^ n
xor_lt zero zero y h g = omega (arith, xor_zero y, g)
xor_lt zero (suc x) y h g = absurd (omega (arith, h))
xor_lt (suc n) x y h g =
    omega (arith, xor_step x y, xor_lt n (x / 2) (y / 2) (omega (arith, h)) (omega (arith, g)))

pub xor_comm : (n x y : ℕ) → x < 2 ^ n → y < 2 ^ n → bit_xor x y ≡ bit_xor y x
xor_comm zero zero zero h g = refl
xor_comm zero zero (suc y) h g = absurd (omega (arith, g))
xor_comm zero (suc x) y h g = absurd (omega (arith, h))
xor_comm (suc n) x y h g = omega (
  arith,
  xor_step x y,
  xor_step y x,
  xor_comm n (x / 2) (y / 2) (omega (arith, h)) (omega (arith, g)),
)

pub xor_assoc :
    (n x y z : ℕ)
    → x < 2 ^ n
    → y < 2 ^ n
    → z < 2 ^ n
    → bit_xor (bit_xor x y) z ≡ bit_xor x (bit_xor y z)
xor_assoc zero zero y z h g f = ap (λ d. bit_xor d z) (xor_zero y) ∙ sym (xor_zero (bit_xor y z))
xor_assoc zero (suc x) y z h g f = absurd (omega (arith, h))
xor_assoc (suc n) x y z h g f =
    let below =
      ap (λ d. bit_xor d (z / 2)) (xor_half x y)
      ∙ (xor_assoc n (x / 2) (y / 2) (z / 2) (omega (arith, h)) (omega (arith, g))
            (omega (arith, f))
          ∙ ap (bit_xor (x / 2)) (sym (xor_half y z))) in
    omega
      (arith, xor_step (bit_xor x y) z, xor_step x (bit_xor y z), xor_low x y, xor_low y z, below)

pub xor_zero_right : (n x : ℕ) → x < 2 ^ n → bit_xor x 0 ≡ x
xor_zero_right n x h =
    let zero_lt : 0 < 2 ^ n = omega (arith, h) in xor_comm n x 0 h zero_lt ∙ xor_zero x

-- The second and the third word change places.
pub xor_swap :
    (n x y z : ℕ)
    → x < 2 ^ n
    → y < 2 ^ n
    → z < 2 ^ n
    → bit_xor (bit_xor x y) z ≡ bit_xor (bit_xor x z) y
xor_swap n x y z h g f =
    xor_assoc n x y z h g f ∙ (ap (bit_xor x) (xor_comm n y z g f) ∙ sym (xor_assoc n x z y h f g))

pub xor_self : (n x : ℕ) → x < 2 ^ n → bit_xor x x ≡ 0
xor_self zero zero h = refl
xor_self zero (suc x) h = absurd (omega (arith, h))
xor_self (suc n) x h = omega (arith, xor_step x x, xor_self n (x / 2) (omega (arith, h)))

-- A word that is put in twice is gone.
pub xor_cancel : (n x y : ℕ) → x < 2 ^ n → y < 2 ^ n → bit_xor x (bit_xor x y) ≡ y
xor_cancel n x y h g =
    sym (xor_assoc n x x y h h g) ∙ (ap (λ d. bit_xor d y) (xor_self n x h) ∙ xor_zero y)

pub xor_injective :
    (n x y z : ℕ) → x < 2 ^ n → y < 2 ^ n → z < 2 ^ n → bit_xor x y ≡ bit_xor x z → y ≡ z
xor_injective n x y z h g f e =
    sym (xor_cancel n x y h g) ∙ (ap (bit_xor x) e ∙ xor_cancel n x z h f)

-- The highest digit of one word alone stays.
pub xor_top : (n x y : ℕ) → x < 2 ^ n → 2 ^ n ≤ y → y < 2 ^ suc n → 2 ^ n ≤ bit_xor x y
xor_top zero zero y h g f = omega (arith, xor_zero y, g)
xor_top zero (suc x) y h g f = absurd (omega (arith, h))
xor_top (suc n) x y h g f = omega (
  arith,
  xor_step x y,
  xor_top n (x / 2) (y / 2) (omega (arith, h)) (omega (arith, g)) (omega (arith, f)),
)
