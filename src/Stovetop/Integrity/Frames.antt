-- ===== src/Stovetop/Integrity/Frames.antt =====
-- The whole DNP3 frame, and the end of the loop over its blocks.
use marlinspike_dpi.Prelude.{
  ℕ, zero, suc, ◌+◌, ◌-◌, ◌^◌, ◌≤◌, ◌<◌, ◌≡◌, refl, sym, ap, ◌∙◌, List, [], ◌∷◌, ◌++◌, arith, false,
  ltb, ◌||◌, not, if◌then◌else◌, length, length-append, take, drop, take-append, min,
}
use mathlib.Core.List.{append_assoc}
use marlinspike_dpi.Prelude.Bytes.{le_bytes, length-le_bytes}
use marlinspike_dpi.Stovetop.Integrity.{
  compare_crc, crc_at, dnp3_crc16, check_blocks, validate_dnp3_dll_crcs,
}
use marlinspike_dpi.Stovetop.Integrity.Blocks.{
  Block, block_bytes, wire, IsCut, wrong_blocks, crc_at-block, check_blocks-wire,
}

-- Any two amounts of fuel that cover the bytes that are left give the same failures.
check_blocks_agree :
    (m n : ℕ) (bytes : List ℕ) (offset : ℕ)
    → length bytes ≤ offset + m
    → length bytes ≤ offset + n
    → check_blocks m bytes offset ≡ check_blocks n bytes offset
unfolding check_blocks
check_blocks_agree zero zero bytes offset h k = refl
check_blocks_agree zero (suc n) bytes offset h k =
    let ends : ltb offset (length bytes) ≡ false = ground (arith, h) in rw ends refl
check_blocks_agree (suc m) zero bytes offset h k =
    let ends : ltb offset (length bytes) ≡ false = ground (arith, k) in rw ends refl
check_blocks_agree (suc m) (suc n) bytes offset h k =
    let next = offset + min (length bytes - offset - 2) 16 + 2 in
    ap
      (λ rest.
        if not (ltb offset (length bytes))
          || ltb (length bytes - offset) 3
          || ltb (length bytes) next
        then []
        else compare_crc offset
            (dnp3_crc16 (take (min (length bytes - offset - 2) 16) (drop offset bytes)))
            (crc_at bytes (offset + min (length bytes - offset - 2) 16))
          ++ rest)
      (check_blocks_agree m n bytes next (omega (arith, h)) (omega (arith, k)))

-- The loop over the blocks ends on every input: with a round for every byte it has come to its
-- end, and any more rounds find the same failures.
pub check_blocks_enough :
    (fuel : ℕ) (bytes : List ℕ) (offset : ℕ)
    → length bytes ≤ offset + fuel
    → check_blocks fuel bytes offset ≡ check_blocks (length bytes) bytes offset
check_blocks_enough fuel bytes offset h =
    check_blocks_agree fuel (length bytes) bytes offset h (omega arith)

length-wire : (blocks : List Block) → length blocks ≤ length (wire blocks)
unfolding wire
length-wire [] = omega arith
length-wire (b ∷ blocks) = omega (
  arith,
  length-append (block_bytes b) (wire blocks),
  length-append b.content (le_bytes 2 b.crc),
  length-le_bytes 2 b.crc,
  length-wire blocks,
)

-- A header of eight bytes with the two start bytes, its checksum, and the blocks.
abbrev pub frame_of : List ℕ → ℕ → List Block → List ℕ
frame_of header crc blocks = (0x05 ∷ 0x64 ∷ header) ++ (le_bytes 2 crc ++ wire blocks)

-- A DNP3 frame that is cut into blocks as the link layer cuts it, whatever its length byte says,
-- gives exactly the places at which the checksum that was sent is not that of the bytes before it:
-- the header first, then the blocks in order, each with the checksum it should have. A frame in
-- which every checksum is right gives none.
pub validate_dnp3_dll_crcs-frame_of :
    (header : List ℕ) (crc : ℕ) (blocks : List Block)
    → length header ≡ 6
    → crc < 2 ^ 16
    → IsCut blocks
    → validate_dnp3_dll_crcs (frame_of header crc blocks)
      ≡ compare_crc 0 (dnp3_crc16 (0x05 ∷ 0x64 ∷ header)) crc ++ wrong_blocks 10 blocks
unfolding validate_dnp3_dll_crcs
validate_dnp3_dll_crcs-frame_of header crc blocks six h cut =
    let first = 0x05 ∷ 0x64 ∷ header in
    let bytes = frame_of header crc blocks in
    let start = first ++ le_bytes 2 crc in
    let eight : length first ≡ 8 = omega (arith, six) in
    let ten : length start ≡ 10 =
      omega (arith, six, length-append first (le_bytes 2 crc), length-le_bytes 2 crc) in
    let joined : start ++ wire blocks ≡ bytes = append_assoc first (le_bytes 2 crc) (wire blocks) in
    let size = length-append start (wire blocks) in
    let long : ltb (length bytes) 10 ≡ false = ground (arith, size, ten, ap length joined) in
    let head : take 8 bytes ≡ first =
      sym (ap (λ n. take n bytes) eight) ∙ take-append first (le_bytes 2 crc ++ wire blocks) in
    let sum : crc_at bytes 8 ≡ crc =
      sym (ap (crc_at bytes) eight) ∙ crc_at-block first crc (wire blocks) h in
    let loop : check_blocks (length bytes) bytes 10 ≡ wrong_blocks 10 blocks =
      sym (ap (check_blocks (length bytes) bytes) ten)
      ∙ (sym (ap (λ x. check_blocks (length bytes) x (length start)) joined)
          ∙ (check_blocks-wire blocks (length bytes) start cut
                (omega (arith, length-wire blocks, size, ap length joined))
              ∙ ap (λ o. wrong_blocks o blocks) ten)) in
    rw (long, head, sum, loop) refl
