-- ===== src/Stovetop/Tests.antt =====
-- Runs of the frame checks on the inputs of the source's tests, and the properties at concrete inputs.
use Prim.Native.Nat.{bit_xor}
use marlinspike_dpi.Prelude.{
  ℕ, zero, suc, ◌≡◌, refl, List, [], ◌∷◌, ◌++◌, arith, All, length, ltb, drop, get_or, All-append,
}
use marlinspike_dpi.Prelude.Bytes.{IsByte, from_be16}
use marlinspike_dpi.Prelude.Text.{codes}
use marlinspike_dpi.Stovetop.Crc.{register}
use marlinspike_dpi.Stovetop.Findings.{high, fcs_invalid, non_zero_padding, medium}
use marlinspike_dpi.Stovetop.Config.{default_config}
use marlinspike_dpi.Stovetop.Padding.{padding_behind, extract_padding, has_nonzero_padding}
use marlinspike_dpi.Stovetop.Integrity.{
  ethernet_round, ethernet_rounds, ethernet_bytes, ethernet_crc32, dnp3_rounds, dnp3_bytes,
  dnp3_crc16, compare_crc, check_blocks, validate_dnp3_dll_crcs,
}
use marlinspike_dpi.Stovetop.Integrity.Checksums.{checksums-register}
use marlinspike_dpi.Stovetop.Integrity.Blocks.{Block, wire, wrong_blocks}
use marlinspike_dpi.Stovetop.Integrity.Frames.{
  frame_of, check_blocks_enough, validate_dnp3_dll_crcs-frame_of,
}
use marlinspike_dpi.Stovetop.Integrity.Fcs.{sealed_with}
use marlinspike_dpi.Stovetop.FrameInspector.{Frame, check_padding, inspect_frame}
use marlinspike_dpi.Stovetop.FrameInspector.Laws.{Parts, whole_frame, inspect_frame-one_byte}

program : Unit {0}
unfolding ethernet_round ethernet_rounds ethernet_bytes ethernet_crc32 dnp3_rounds dnp3_bytes
    dnp3_crc16 check_blocks validate_dnp3_dll_crcs wire wrong_blocks extract_padding padding_behind
    has_nonzero_padding
program = tt

-- `crc32_known_value`
crc32_known : ethernet_crc32 (codes "123456789") ≡ 0xCBF43926
unfolding program
crc32_known = refl

-- `validate_dnp3_with_bad_crc`
abbrev header : List ℕ
header = 0x05 ∷ 0xC0 ∷ 0x01 ∷ 0x00 ∷ 0x02 ∷ 0x00 ∷ []

bad_header :
    validate_dnp3_dll_crcs (frame_of header 0xBBAA [])
    ≡ record { block_offset = 0; expected = dnp3_crc16 (0x05 ∷ 0x64 ∷ header); actual = 0xBBAA }
      ∷ []
unfolding program
bad_header = refl

abbrev two_bytes : List ℕ
two_bytes = 0x31 ∷ 0xFF ∷ []

checksums-register_example :
    (ethernet_crc32 two_bytes ≡ bit_xor (register 0xEDB88320 0xFFFFFFFF two_bytes) 0xFFFFFFFF)
    × (dnp3_crc16 two_bytes ≡ bit_xor (register 0xA6BC 0 two_bytes) 0xFFFF)
checksums-register_example = checksums-register two_bytes (omega arith, (omega arith, tt))

-- A full block and a last one of two bytes, the second with a wrong checksum.
abbrev zeros : ℕ → List ℕ
zeros zero = []
zeros (suc n) = 0 ∷ zeros n

abbrev two_blocks : List Block
two_blocks =
    record { content = zeros 16; crc = 0xFFFF } ∷ record { content = two_bytes; crc = 0x1234 } ∷ []

validate_dnp3_dll_crcs-frame_of_example :
    validate_dnp3_dll_crcs (frame_of header 7 two_blocks)
    ≡ compare_crc 0 (dnp3_crc16 (0x05 ∷ 0x64 ∷ header)) 7 ++ wrong_blocks 10 two_blocks
validate_dnp3_dll_crcs-frame_of_example =
    validate_dnp3_dll_crcs-frame_of header 7 two_blocks refl (omega arith)
      (refl, omega arith, (omega arith, omega arith, omega arith))

-- The one wrong block, behind ten bytes of header and eighteen of the first block.
one_wrong_block :
    wrong_blocks 10 two_blocks
    ≡ record { block_offset = 28; expected = dnp3_crc16 two_bytes; actual = 0x1234 } ∷ []
unfolding program
one_wrong_block = refl

check_blocks_enough_example : check_blocks 40 two_bytes 1 ≡ check_blocks 2 two_bytes 1
check_blocks_enough_example = check_blocks_enough 40 two_bytes 1 (omega arith)

zeros-IsByte : (n : ℕ) → All IsByte (zeros n)
zeros-IsByte zero = tt
zeros-IsByte (suc n) = (omega arith, zeros-IsByte n)

-- The EtherType stands behind two addresses, and the payload behind it.
abbrev parse : List ℕ → Parts
parse bytes = record {
  ethertype = from_be16 (get_or bytes 12 0) (get_or bytes 13 0);
  l2_payload = drop 14 bytes;
  ethernet_header_len = 14;
}

-- An IPv4 frame with 18 bytes of padding; the byte that changes is the first of them.
abbrev before : List ℕ
before = zeros 12 ++ (0x08 ∷ 0x00 ∷ 0x45 ∷ 0 ∷ 0 ∷ 28 ∷ zeros 24)

abbrev received : List ℕ → Frame
received bytes = whole_frame parse (sealed_with (ethernet_crc32 (before ++ (0 ∷ zeros 17))) bytes)

before-IsByte : All IsByte before
before-IsByte =
    All-append IsByte (zeros 12) (8 ∷ 0 ∷ 69 ∷ 0 ∷ 0 ∷ 28 ∷ zeros 24) (zeros-IsByte 12) (
      omega arith,
      (omega arith, (omega arith, (omega arith, (omega arith, (omega arith, zeros-IsByte 24))))),
    )

inspect_frame-one_byte_example :
    (inspect_frame ltb length (λ b. b) (default_config 3) (received (before ++ (0 ∷ zeros 17)))
      ≡ check_padding ltb length (λ b. b) (default_config 3) (received (before ++ (0 ∷ zeros 17))))
    × (inspect_frame ltb length (λ b. b) (default_config 3) (received (before ++ (8 ∷ zeros 17)))
        ≡ check_padding ltb length (λ b. b) (default_config 3) (received (before ++ (8 ∷ zeros 17)))
          ++ (record {
            kind =
                fcs_invalid
                  (ethernet_crc32 (before ++ (8 ∷ zeros 17)))
                  (ethernet_crc32 (before ++ (0 ∷ zeros 17)));
            severity = high;
            decoder = "stovetop:fcs";
          }
              ∷ []))
inspect_frame-one_byte_example =
    inspect_frame-one_byte ltb length (λ b. b) 3 0 8 before (zeros 17) parse before-IsByte
      (omega arith) (omega arith) (zeros-IsByte 17) (omega arith) (omega arith) (omega arith)

-- The changed byte is a finding on the padding as well.
padding_found :
    (check_padding ltb length (λ b. b) (default_config 3) (received (before ++ (0 ∷ zeros 17)))
      ≡ [])
    × (check_padding ltb length (λ b. b) (default_config 3) (received (before ++ (8 ∷ zeros 17)))
        ≡ record {
          kind = non_zero_padding 42 18 18 (8 ∷ zeros 17);
          severity = medium;
          decoder = "stovetop:padding";
        }
          ∷ [])
unfolding program check_padding
padding_found = (refl, refl)
