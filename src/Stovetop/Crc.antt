-- ===== src/Stovetop/Crc.antt =====
-- The reflected cyclic redundancy check, as the register machine that both checksums of
-- src/stovetop/integrity.rs are measured against.
use Prim.Native.Nat.{bit_xor}
use marlinspike_dpi.Prelude.{
  ℕ, zero, suc, ◌/◌, ◌%◌, ◌^◌, ◌≤◌, ◌<◌, ◌≡◌, refl, sym, ◌∙◌, ◌⊎◌, inl, inr, List, [], ◌∷◌, ◌++◌,
  arith, eqb, if◌then◌else◌, All, Bool-cases, eqb_iff,
}
use marlinspike_dpi.Prelude.Bytes.{IsByte}
use marlinspike_dpi.Prelude.Xor.{xor_lt, xor_injective, xor_top, xor_comm}

-- One digit out at the low end, and the polynomial in where it was a one.
unfoldable pub shift : ℕ → ℕ → ℕ
shift poly crc = if eqb (crc % 2) 1 then bit_xor (crc / 2) poly else crc / 2

unfoldable pub shifts : ℕ → ℕ → ℕ → ℕ
shifts poly zero crc = crc
shifts poly (suc n) crc = shifts poly n (shift poly crc)

-- The register after all bytes.
unfoldable pub register : ℕ → ℕ → List ℕ → ℕ
register poly crc [] = crc
register poly crc (b ∷ bytes) = register poly (shifts poly 8 (bit_xor crc b)) bytes

low_cases : (x : ℕ) → (x % 2 ≡ 1) ⊎ (x % 2 ≡ 0)
low_cases x = elim (Bool-cases (eqb (x % 2) 1)) [
  | inl h ↦ inl ((eqb_iff (x % 2) 1).0 h)
  | inr h ↦ inr (ground (arith, h))
]

register-append :
    (poly crc : ℕ) (xs ys : List ℕ)
    → register poly crc (xs ++ ys) ≡ register poly (register poly crc xs) ys
unfolding register
register-append poly crc [] ys = refl
register-append poly crc (x ∷ xs) ys = register-append poly (shifts poly 8 (bit_xor crc x)) xs ys

-- A polynomial of `suc n` digits, the highest of them a one, and registers of as many.
module _ (n poly : ℕ) (long : 2 ^ n ≤ poly) (fits : poly < 2 ^ suc n) where
  shift_odd : (x : ℕ) → x % 2 ≡ 1 → shift poly x ≡ bit_xor (x / 2) poly
  unfolding shift
  shift_odd x h = ground (arith, h)

  shift_even : (x : ℕ) → x % 2 ≡ 0 → shift poly x ≡ x / 2
  unfolding shift
  shift_even x h = ground (arith, h)

  shift_lt : (x : ℕ) → x < 2 ^ suc n → shift poly x < 2 ^ suc n
  shift_lt x h = elim (low_cases x) [
    | inl odd ↦ omega (arith, shift_odd x odd, xor_lt (suc n) (x / 2) poly (omega (arith, h)) fits)
    | inr even ↦ omega (arith, shift_even x even, h)
  ]

  odd_high : (x : ℕ) → x < 2 ^ suc n → x % 2 ≡ 1 → 2 ^ n ≤ shift poly x
  odd_high x h odd =
      omega (arith, shift_odd x odd, xor_top n (x / 2) poly (omega (arith, h)) long fits)

  even_low : (x : ℕ) → x < 2 ^ suc n → x % 2 ≡ 0 → shift poly x < 2 ^ n
  even_low x h even = omega (arith, shift_even x even, h)

  odd_injective :
      (x y : ℕ)
      → x < 2 ^ suc n
      → y < 2 ^ suc n
      → x % 2 ≡ 1
      → y % 2 ≡ 1
      → shift poly x ≡ shift poly y
      → x / 2 ≡ y / 2
  odd_injective x y h g p q e =
      xor_injective (suc n) poly (x / 2) (y / 2) fits (omega (arith, h)) (omega (arith, g)) (
        xor_comm (suc n) poly (x / 2) fits (omega (arith, h))
        ∙ (sym (shift_odd x p)
            ∙ (e ∙ (shift_odd y q ∙ xor_comm (suc n) (y / 2) poly (omega (arith, g)) fits))))

  -- The digit that went out shows at the high end.
  shift_injective : (x y : ℕ) → x < 2 ^ suc n → y < 2 ^ suc n → shift poly x ≡ shift poly y → x ≡ y
  shift_injective x y h g e = elim (low_cases x) [
    | inl p ↦ elim (low_cases y) [
      | inl q ↦ omega (arith, odd_injective x y h g p q e, p, q)
      | inr q ↦ absurd (omega (arith, odd_high x h p, even_low y g q, e))
    ]
    | inr p ↦ elim (low_cases y) [
      | inl q ↦ absurd (omega (arith, odd_high y g q, even_low x h p, e))
      | inr q ↦ omega (arith, shift_even x p, shift_even y q, e, p, q)
    ]
  ]

  pub shifts_lt : (k x : ℕ) → x < 2 ^ suc n → shifts poly k x < 2 ^ suc n
  unfolding shifts
  shifts_lt zero x h = h
  shifts_lt (suc k) x h = shifts_lt k (shift poly x) (shift_lt x h)

  shifts_injective :
      (k x y : ℕ) → x < 2 ^ suc n → y < 2 ^ suc n → shifts poly k x ≡ shifts poly k y → x ≡ y
  unfolding shifts
  shifts_injective zero x y h g e = e
  shifts_injective (suc k) x y h g e =
      shift_injective x y h g
        (shifts_injective k (shift poly x) (shift poly y) (shift_lt x h) (shift_lt y g) e)

  module _ (wide : 256 ≤ 2 ^ suc n) where
    pub absorb_lt :
        (crc b : ℕ) → crc < 2 ^ suc n → b < 256 → shifts poly 8 (bit_xor crc b) < 2 ^ suc n
    absorb_lt crc b h k =
        shifts_lt 8 (bit_xor crc b) (xor_lt (suc n) crc b h (omega (arith, k, wide)))

    pub register_lt :
        (crc : ℕ) (bytes : List ℕ)
        → crc < 2 ^ suc n
        → All IsByte bytes
        → register poly crc bytes < 2 ^ suc n
    unfolding register
    register_lt crc [] h k = h
    register_lt crc (b ∷ bytes) h (k, ks) =
        register_lt (shifts poly 8 (bit_xor crc b)) bytes (absorb_lt crc b h k) ks

    -- Different registers stay different, whatever bytes follow.
    register_injective :
        (x y : ℕ) (bytes : List ℕ)
        → x < 2 ^ suc n
        → y < 2 ^ suc n
        → All IsByte bytes
        → register poly x bytes ≡ register poly y bytes
        → x ≡ y
    unfolding register
    register_injective x y [] h g k e = e
    register_injective x y (b ∷ bytes) h g (k, ks) e =
        let small : b < 2 ^ suc n = omega (arith, k, wide) in
        let inner =
          shifts_injective 8 (bit_xor x b) (bit_xor y b) (xor_lt (suc n) x b h small)
            (xor_lt (suc n) y b g small)
            (register_injective (shifts poly 8 (bit_xor x b)) (shifts poly 8 (bit_xor y b)) bytes
              (absorb_lt x b h k) (absorb_lt y b g k) ks e) in
        xor_injective (suc n) b x y small h g
          (xor_comm (suc n) b x small h ∙ (inner ∙ xor_comm (suc n) y b g small))

    -- One byte that is not what it was shows in the register at the end.
    pub register_one_byte :
        (crc a b : ℕ) (before after : List ℕ)
        → crc < 2 ^ suc n
        → All IsByte before
        → a < 256
        → b < 256
        → All IsByte after
        → register poly crc (before ++ (a ∷ after)) ≡ register poly crc (before ++ (b ∷ after))
        → a ≡ b
    unfolding register
    register_one_byte crc a b before after h ks ka kb js e =
        let r = register poly crc before in
        let small = register_lt crc before h ks in
        let sa : a < 2 ^ suc n = omega (arith, ka, wide) in
        let sb : b < 2 ^ suc n = omega (arith, kb, wide) in
        let met =
          register_injective (shifts poly 8 (bit_xor r a)) (shifts poly 8 (bit_xor r b)) after
            (absorb_lt r a small ka) (absorb_lt r b small kb) js
            (sym (register-append poly crc before (a ∷ after))
              ∙ (e ∙ register-append poly crc before (b ∷ after))) in
        xor_injective (suc n) r a b small sa sb (
          shifts_injective 8 (bit_xor r a) (bit_xor r b) (xor_lt (suc n) r a small sa)
            (xor_lt (suc n) r b small sb) met)
