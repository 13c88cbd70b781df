-- ===== src/Stovetop/Integrity/Fcs.antt =====
-- The frame check sequence at the end of a frame.
use marlinspike_dpi.Prelude.{
  ℕ, ◌+◌, ◌-◌, ◌^◌, ◌≤◌, ◌<◌, ◌≡◌, ◌≢◌, refl, sym, ap, ◌∙◌, some, List, ◌∷◌, ◌++◌, arith, true,
  false, eqb, eqb_refl, ltb, ◌||◌, All, All-append, length, length-append, take-append, drop-append,
  eqb_ne,
}
use marlinspike_dpi.Prelude.Bytes.{IsByte, le_bytes, length-le_bytes}
use marlinspike_dpi.Prelude.Xor.{xor_lt}
use marlinspike_dpi.Stovetop.Crc.{register, register_lt}
use marlinspike_dpi.Stovetop.Integrity.{last_four, ethernet_crc32, validate_ethernet_fcs}
use marlinspike_dpi.Stovetop.Integrity.Checksums.{checksums-register, one_byte_detected}

ethernet_crc32-lt : (bytes : List ℕ) → All IsByte bytes → ethernet_crc32 bytes < 2 ^ 32
ethernet_crc32-lt bytes h = omega (
  arith,
  (checksums-register bytes h).0,
  xor_lt 32 (register 0xEDB88320 0xFFFFFFFF bytes) 0xFFFFFFFF
      (register_lt 31 0xEDB88320 (omega arith) (omega arith) (omega arith) 0xFFFFFFFF bytes
        (omega arith) h)
      (omega arith),
)

last_four-le_bytes : (v : ℕ) → v < 2 ^ 32 → last_four (le_bytes 4 v) ≡ v
last_four-le_bytes v h = omega (arith, h)

abbrev pub sealed_with : ℕ → List ℕ → List ℕ
sealed_with v payload = payload ++ le_bytes 4 v

pub length-sealed_with :
    (v : ℕ) (payload : List ℕ) → length (sealed_with v payload) ≡ length payload + 4
length-sealed_with v payload =
    omega (arith, length-append payload (le_bytes 4 v), length-le_bytes 4 v)

fcs_offset : (v : ℕ) (payload : List ℕ) → length (sealed_with v payload) - 4 ≡ length payload
fcs_offset v payload = omega (arith, length-append payload (le_bytes 4 v), length-le_bytes 4 v)

validate_ethernet_fcs-sealed :
    (v captured_len orig_len : ℕ) (payload : List ℕ)
    → v < 2 ^ 32
    → 60 ≤ length payload
    → orig_len ≤ captured_len
    → validate_ethernet_fcs (sealed_with v payload) captured_len orig_len
      ≡ some (record {
        expected = ethernet_crc32 payload;
        actual = v;
        valid = eqb (ethernet_crc32 payload) v;
      })
unfolding validate_ethernet_fcs
validate_ethernet_fcs-sealed v captured_len orig_len payload h long whole =
    rw
      (
        fcs_offset v payload,
        drop-append payload (le_bytes 4 v),
        take-append payload (le_bytes 4 v),
        last_four-le_bytes v h,
        checked,
      )
      refl
  where
    checked : (ltb captured_len orig_len || ltb (length (sealed_with v payload)) 64) ≡ false
    checked = ground (arith, whole, long, length-append payload (le_bytes 4 v), length-le_bytes 4 v)

-- A frame of at least sixty bytes that was captured whole and ends in the checksum of the bytes
-- before it is valid, and it is invalid as soon as one of those bytes, wherever it stands, is
-- another one.
pub validate_ethernet_fcs_lem :
    (a b captured_len orig_len : ℕ) (before after : List ℕ)
    → All IsByte before
    → a < 256
    → b < 256
    → All IsByte after
    → a ≢ b
    → 59 ≤ length before + length after
    → orig_len ≤ captured_len
    → let sent = before ++ (a ∷ after) in
      let changed = before ++ (b ∷ after) in
      (validate_ethernet_fcs (sealed_with (ethernet_crc32 sent) sent) captured_len orig_len
        ≡ some
            (record { expected = ethernet_crc32 sent; actual = ethernet_crc32 sent; valid = true }))
      × (validate_ethernet_fcs (sealed_with (ethernet_crc32 sent) changed) captured_len orig_len
          ≡ some (record {
            expected = ethernet_crc32 changed;
            actual = ethernet_crc32 sent;
            valid = false;
          }))
validate_ethernet_fcs_lem a b captured_len orig_len before after ks ka kb js differ long whole =
    let sent = before ++ (a ∷ after) in
    let changed = before ++ (b ∷ after) in
    let fits = ethernet_crc32-lt sent (All-append IsByte before (a ∷ after) ks (ka, js)) in
    let escape : ethernet_crc32 changed ≢ ethernet_crc32 sent =
      λ e. (one_byte_detected a b before after ks ka kb js differ).0 (sym e) in
    (
      validate_ethernet_fcs-sealed (ethernet_crc32 sent) captured_len orig_len sent fits
            (omega (arith, long, length-append before (a ∷ after))) whole
          ∙ ap
              (λ v. some (record {
                expected = ethernet_crc32 sent;
                actual = ethernet_crc32 sent;
                valid = v;
              }))
              (eqb_refl (ethernet_crc32 sent)),
      validate_ethernet_fcs-sealed (ethernet_crc32 sent) captured_len orig_len changed fits
            (omega (arith, long, length-append before (b ∷ after))) whole
          ∙ ap
              (λ v. some (record {
                expected = ethernet_crc32 changed;
                actual = ethernet_crc32 sent;
                valid = v;
              }))
              (eqb_ne (ethernet_crc32 changed) (ethernet_crc32 sent) escape),
    )
