-- ===== src/Stovetop/Integrity/Checksums.antt =====
-- Both checksums are the reflected one, and no single wrong byte escapes them.
use Prim.Native.Nat.{bit_xor}
use marlinspike_dpi.Prelude.{
  ℕ, zero, suc, ◌/◌, ◌%◌, ◌^◌, ◌≤◌, ◌<◌, ◌≡◌, ◌≢◌, refl, sym, ap, ◌∙◌, inl, inr, List, [], ◌∷◌,
  ◌++◌, arith, Bool, true, false, eqb, if◌then◌else◌, All, All-append, Bool-cases,
}
use marlinspike_dpi.Prelude.Bytes.{IsByte}
use marlinspike_dpi.Prelude.Xor.{
  xor_lt, xor_half, xor_comm, xor_injective, xor_zero_right, xor_swap,
}
use marlinspike_dpi.Stovetop.Crc.{
  shift, shifts, register, absorb_lt, register_lt, register_one_byte,
}
use marlinspike_dpi.Stovetop.Integrity.{
  ethernet_round, ethernet_rounds, ethernet_bytes, ethernet_crc32, dnp3_rounds, dnp3_bytes,
  dnp3_crc16,
}

ethernet_rounds-shifts : (n crc : ℕ) → ethernet_rounds n crc ≡ shifts 0xEDB88320 n crc
unfolding ethernet_rounds ethernet_round shifts shift
ethernet_rounds-shifts zero crc = refl
ethernet_rounds-shifts (suc n) crc = ethernet_rounds-shifts n _

ethernet_bytes-register :
    (crc : ℕ) (bytes : List ℕ) → ethernet_bytes crc bytes ≡ register 0xEDB88320 crc bytes
unfolding ethernet_bytes register
ethernet_bytes-register crc [] = refl
ethernet_bytes-register crc (b ∷ bytes) =
    ethernet_bytes-register (ethernet_rounds 8 (bit_xor crc b)) bytes
    ∙ ap (λ r. register 0xEDB88320 r bytes) (ethernet_rounds-shifts 8 (bit_xor crc b))

dnp3_round-shift :
    (crc temp : ℕ)
    → crc < 2 ^ 16
    → temp < 2 ^ 16
    → bit_xor
        (if eqb (bit_xor crc temp % 2) 1 then bit_xor (crc / 2) 0xA6BC else crc / 2)
        (temp / 2)
      ≡ shift 0xA6BC (bit_xor crc temp)
unfolding shift
dnp3_round-shift crc temp h k = elim (Bool-cases (eqb (bit_xor crc temp % 2) 1)) [
  | inl q ↦
      rw (q, xor_half crc temp)
        (xor_swap 16 (crc / 2) 0xA6BC (temp / 2) (omega (arith, h)) (omega arith)
          (omega (arith, k)))
  | inr q ↦ rw (q, xor_half crc temp) refl
]

round_lt :
    (b : Bool) (crc : ℕ) → crc < 2 ^ 16 → (if b then bit_xor (crc / 2) 0xA6BC else crc / 2) < 2 ^ 16
round_lt true crc h = xor_lt 16 (crc / 2) 0xA6BC (omega (arith, h)) (omega arith)
round_lt false crc h = omega (arith, h)

-- A byte beside the register does what it does inside it.
dnp3_rounds-shifts :
    (n crc temp : ℕ)
    → crc < 2 ^ 16
    → temp < 2 ^ n
    → temp < 2 ^ 16
    → dnp3_rounds n crc temp ≡ shifts 0xA6BC n (bit_xor crc temp)
unfolding dnp3_rounds shifts
dnp3_rounds-shifts zero crc zero h k small = sym (xor_zero_right 16 crc h)
dnp3_rounds-shifts zero crc (suc temp) h k small = absurd (omega (arith, k))
dnp3_rounds-shifts (suc n) crc temp h k small =
    let round = eqb (bit_xor crc temp % 2) 1 in
    dnp3_rounds-shifts n (if round then bit_xor (crc / 2) 0xA6BC else crc / 2) (temp / 2)
      (round_lt round crc h) (omega (arith, k)) (omega (arith, small))
    ∙ ap (shifts 0xA6BC n) (dnp3_round-shift crc temp h small)

dnp3_bytes-register :
    (crc : ℕ) (bytes : List ℕ)
    → crc < 2 ^ 16
    → All IsByte bytes
    → dnp3_bytes crc bytes ≡ register 0xA6BC crc bytes
unfolding dnp3_bytes register
dnp3_bytes-register crc [] h k = refl
dnp3_bytes-register crc (b ∷ bytes) h (k, ks) =
    let same = dnp3_rounds-shifts 8 crc b h k (omega (arith, k)) in
    ap (λ r. dnp3_bytes r bytes) same
    ∙ dnp3_bytes-register (shifts 0xA6BC 8 (bit_xor crc b)) bytes
        (absorb_lt 15 0xA6BC (omega arith) (omega arith) (omega arith) crc b h k) ks

-- Over every sequence of bytes, both checksums are the register machine of a reflected cyclic
-- redundancy check: the one of IEEE 802.3 with the polynomial 0xEDB88320, all ones before and
-- behind, and the one of DNP3 with 0xA6BC, zero before and all ones behind, although the code puts
-- the bytes into the second one bit by bit.
pub checksums-register :
    (bytes : List ℕ)
    → All IsByte bytes
    → (ethernet_crc32 bytes ≡ bit_xor (register 0xEDB88320 0xFFFFFFFF bytes) 0xFFFFFFFF)
      × (dnp3_crc16 bytes ≡ bit_xor (register 0xA6BC 0 bytes) 0xFFFF)
unfolding ethernet_crc32 dnp3_crc16
checksums-register bytes h = (
  ap (λ r. bit_xor r 0xFFFFFFFF) (ethernet_bytes-register 0xFFFFFFFF bytes),
  ap (λ r. bit_xor r 0xFFFF) (dnp3_bytes-register 0 bytes (omega arith) h),
)

one_byte_register :
    (n poly crc out a b : ℕ) (before after : List ℕ)
    → 2 ^ n ≤ poly
    → poly < 2 ^ suc n
    → 256 ≤ 2 ^ suc n
    → crc < 2 ^ suc n
    → out < 2 ^ suc n
    → All IsByte before
    → a < 256
    → b < 256
    → All IsByte after
    → bit_xor (register poly crc (before ++ (a ∷ after))) out
      ≡ bit_xor (register poly crc (before ++ (b ∷ after))) out
    → a ≡ b
one_byte_register n poly crc out a b before after long fits wide h o ks ka kb js e =
    let with_byte : (c : ℕ) → c < 256 → register poly crc (before ++ (c ∷ after)) < 2 ^ suc n =
      λ c kc.
        register_lt n poly long fits wide crc (before ++ (c ∷ after)) h
          (All-append IsByte before (c ∷ after) ks (kc, js)) in
    register_one_byte n poly long fits wide crc a b before after h ks ka kb js (
      xor_injective (suc n) out _ _ o (with_byte a ka) (with_byte b kb) (
        xor_comm (suc n) out _ o (with_byte a ka)
        ∙ (e ∙ xor_comm (suc n) _ out (with_byte b kb) o)))

-- Two byte sequences that differ in a single byte, wherever it stands, have different checksums,
-- by either of the two.
pub one_byte_detected :
    (a b : ℕ) (before after : List ℕ)
    → All IsByte before
    → a < 256
    → b < 256
    → All IsByte after
    → a ≢ b
    → (ethernet_crc32 (before ++ (a ∷ after)) ≢ ethernet_crc32 (before ++ (b ∷ after)))
      × (dnp3_crc16 (before ++ (a ∷ after)) ≢ dnp3_crc16 (before ++ (b ∷ after)))
one_byte_detected a b before after ks ka kb js differ =
    let ra =
      checksums-register (before ++ (a ∷ after))
        (All-append IsByte before (a ∷ after) ks (ka, js)) in
    let rb =
      checksums-register (before ++ (b ∷ after))
        (All-append IsByte before (b ∷ after) ks (kb, js)) in
    (
      λ e. differ (
          one_byte_register 31 0xEDB88320 0xFFFFFFFF 0xFFFFFFFF a b before after (omega arith)
            (omega arith) (omega arith) (omega arith) (omega arith) ks ka kb js
            (sym ra.0 ∙ (e ∙ rb.0))),
      λ e. differ (
          one_byte_register 15 0xA6BC 0 0xFFFF a b before after (omega arith) (omega arith)
            (omega arith) (omega arith) (omega arith) ks ka kb js (sym ra.1 ∙ (e ∙ rb.1))),
    )
