-- ===== src/Stovetop/Integrity.antt =====
-- `src/stovetop/integrity.rs`: checksums of Ethernet frames and of DNP3 blocks.
pub mod Checksums
pub mod Fcs
pub mod Blocks
pub mod Frames
use Prim.Native.Nat.{bit_xor}
use marlinspike_dpi.Prelude.{
  ℕ, zero, suc, ◌+◌, ◌-◌, ◌/◌, ◌%◌, Bool, true, false, ◌||◌, not, Option, none, some, List, [], ◌∷◌,
  ◌++◌, if◌then◌else◌, eqb, ltb, length, take, drop, get_or, min,
}
use marlinspike_dpi.Prelude.Bytes.{from_le16, from_le32}

-- One round of the loop over the bits of a byte.
unfoldable pub ethernet_round : ℕ → ℕ
ethernet_round crc = if eqb (crc % 2) 1 then bit_xor (crc / 2) 0xEDB88320 else crc / 2

unfoldable pub ethernet_rounds : ℕ → ℕ → ℕ
ethernet_rounds zero crc = crc
ethernet_rounds (suc n) crc = ethernet_rounds n (ethernet_round crc)

unfoldable pub ethernet_bytes : ℕ → List ℕ → ℕ
ethernet_bytes crc [] = crc
ethernet_bytes crc (byte ∷ bytes) = ethernet_bytes (ethernet_rounds 8 (bit_xor crc byte)) bytes

unfoldable pub ethernet_crc32 : List ℕ → ℕ
ethernet_crc32 bytes = bit_xor (ethernet_bytes 0xFFFFFFFF bytes) 0xFFFFFFFF

-- The computed checksum, the one in the frame, and whether they agree.
pub record FcsCheck : Type 0 where
  pub expected : ℕ
  pub actual : ℕ
  pub valid : Bool

abbrev pub last_four : List ℕ → ℕ
last_four tail = from_le32 (get_or tail 0 0) (get_or tail 1 0) (get_or tail 2 0) (get_or tail 3 0)

unfoldable pub validate_ethernet_fcs : List ℕ → ℕ → ℕ → Option FcsCheck
validate_ethernet_fcs frame captured_len orig_len =
    let fcs_offset = length frame - 4 in
    let actual_fcs = last_four (drop fcs_offset frame) in
    let expected_fcs = ethernet_crc32 (take fcs_offset frame) in
    if ltb captured_len orig_len || ltb (length frame) 64
    then none
    else some (record {
      expected = expected_fcs;
      actual = actual_fcs;
      valid = eqb expected_fcs actual_fcs;
    })

-- The register is tested together with the byte, which goes down with it.
unfoldable pub dnp3_rounds : ℕ → ℕ → ℕ → ℕ
dnp3_rounds zero crc temp = crc
dnp3_rounds (suc n) crc temp =
    dnp3_rounds n (if eqb (bit_xor crc temp % 2) 1 then bit_xor (crc / 2) 0xA6BC else crc / 2)
      (temp / 2)

unfoldable pub dnp3_bytes : ℕ → List ℕ → ℕ
dnp3_bytes crc [] = crc
dnp3_bytes crc (byte ∷ bytes) = dnp3_bytes (dnp3_rounds 8 crc byte) bytes

unfoldable pub dnp3_crc16 : List ℕ → ℕ
dnp3_crc16 bytes = bit_xor (dnp3_bytes 0 bytes) 0xFFFF

-- A block whose checksum is wrong: where it starts, and both checksums.
pub record CrcFailure : Type 0 where
  pub block_offset : ℕ
  pub expected : ℕ
  pub actual : ℕ

abbrev pub compare_crc : ℕ → ℕ → ℕ → List CrcFailure
compare_crc offset expected actual =
    if eqb actual expected
    then []
    else record { block_offset = offset; expected = expected; actual = actual } ∷ []

abbrev pub crc_at : List ℕ → ℕ → ℕ
crc_at bytes i = from_le16 (get_or bytes i 0) (get_or bytes (suc i) 0)

-- The loop over the user data, with a round for every byte at most.
unfoldable pub check_blocks : ℕ → List ℕ → ℕ → List CrcFailure
check_blocks zero bytes offset = []
check_blocks (suc fuel) bytes offset =
    let remaining = length bytes - offset in
    let block_data_len = min (remaining - 2) 16 in
    let crc_offset = offset + block_data_len in
    let rest = check_blocks fuel bytes (crc_offset + 2) in
    if not (ltb offset (length bytes)) || ltb remaining 3 || ltb (length bytes) (crc_offset + 2)
    then []
    else compare_crc offset (dnp3_crc16 (take block_data_len (drop offset bytes)))
        (crc_at bytes crc_offset)
      ++ rest

unfoldable pub validate_dnp3_dll_crcs : List ℕ → List CrcFailure
validate_dnp3_dll_crcs bytes =
    if ltb (length bytes) 10
      || not (eqb (get_or bytes 0 0) 0x05)
      || not (eqb (get_or bytes 1 0) 0x64)
    then []
    else compare_crc 0 (dnp3_crc16 (take 8 bytes)) (crc_at bytes 8)
      ++ check_blocks (length bytes) bytes 10
