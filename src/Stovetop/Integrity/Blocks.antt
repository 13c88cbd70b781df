-- ===== src/Stovetop/Integrity/Blocks.antt =====
-- The DNP3 frame as a header and blocks, each behind its checksum.
use marlinspike_dpi.Prelude.{
  ℕ, zero, suc, ◌+◌, ◌-◌, ◌/◌, ◌%◌, ◌^◌, ◌≤◌, ◌<◌, ◌≡◌, refl, sym, ap, ◌∙◌, List, [], ◌∷◌, ◌++◌,
  arith, false, ltb, ◌||◌, not, length, length-append, take, drop, take-append, drop-append,
  get_or-append, min, get_or-append_next,
}
use mathlib.Core.List.{append_assoc, append-nil}
use marlinspike_dpi.Prelude.Bytes.{le_bytes, length-le_bytes}
use marlinspike_dpi.Stovetop.Integrity.{CrcFailure, compare_crc, crc_at, dnp3_crc16, check_blocks}

-- What a block holds and the checksum that was sent with it.
pub record Block : Type 0 where
  pub content : List ℕ
  pub crc : ℕ

abbrev pub block_bytes : Block → List ℕ
block_bytes b = b.content ++ le_bytes 2 b.crc

unfoldable pub wire : List Block → List ℕ
wire [] = []
wire (b ∷ blocks) = block_bytes b ++ wire blocks

-- Every block but the last holds sixteen bytes, and the last one at least one.
abbrev pub IsCut : List Block → Type 0
IsCut [] = Unit
IsCut (b ∷ []) = (1 ≤ length b.content) × (length b.content ≤ 16) × (b.crc < 2 ^ 16)
IsCut (b ∷ (c ∷ blocks)) = (length b.content ≡ 16) × (b.crc < 2 ^ 16) × IsCut (c ∷ blocks)

-- The blocks whose checksum is not that of their content, with their places.
unfoldable pub wrong_blocks : ℕ → List Block → List CrcFailure
wrong_blocks offset [] = []
wrong_blocks offset (b ∷ blocks) =
    compare_crc offset (dnp3_crc16 b.content) b.crc
    ++ wrong_blocks (offset + length b.content + 2) blocks

wire-length :
    (b : Block) (blocks : List Block) → IsCut (b ∷ blocks) → 3 ≤ length (wire (b ∷ blocks))
unfolding wire
wire-length b [] h = omega (
  arith,
  h.0,
  length-append (block_bytes b) [],
  length-append b.content (le_bytes 2 b.crc),
  length-le_bytes 2 b.crc,
)
wire-length b (c ∷ blocks) h = omega (
  arith,
  h.0,
  length-append (block_bytes b) (wire (c ∷ blocks)),
  length-append b.content (le_bytes 2 b.crc),
  length-le_bytes 2 b.crc,
)

pub crc_at-block :
    (before : List ℕ) (v : ℕ) (rest : List ℕ)
    → v < 2 ^ 16
    → crc_at (before ++ (le_bytes 2 v ++ rest)) (length before) ≡ v
crc_at-block before v rest h =
    rw
      (
        get_or-append before ((v / 256 % 256) ∷ rest) (v % 256) 0,
        get_or-append_next before rest (v % 256) (v / 256 % 256) 0,
      )
      (omega (arith, h))

regroup :
    (before : List ℕ) (b : Block) (rest : List ℕ)
    → before ++ (block_bytes b ++ rest) ≡ (before ++ b.content) ++ (le_bytes 2 b.crc ++ rest)
regroup before b rest = simp append_assoc

crc_at-inside :
    (before : List ℕ) (b : Block) (rest : List ℕ)
    → b.crc < 2 ^ 16
    → crc_at (before ++ (block_bytes b ++ rest)) (length before + length b.content) ≡ b.crc
crc_at-inside before b rest h =
    ap (λ x. crc_at x (length before + length b.content)) (regroup before b rest)
    ∙ (ap (crc_at ((before ++ b.content) ++ (le_bytes 2 b.crc ++ rest)))
          (sym (length-append before b.content))
        ∙ crc_at-block (before ++ b.content) b.crc rest h)

slice :
    (before : List ℕ) (b : Block) (rest : List ℕ)
    → take (length b.content) (drop (length before) (before ++ (block_bytes b ++ rest))) ≡ b.content
slice before b rest =
    ap (take (length b.content)) (drop-append before (block_bytes b ++ rest))
    ∙ (ap (take (length b.content)) (append_assoc b.content (le_bytes 2 b.crc) rest)
        ∙ take-append b.content (le_bytes 2 b.crc ++ rest))

-- One round reads one block.
check_blocks-block :
    (fuel : ℕ) (before : List ℕ) (b : Block) (rest : List ℕ)
    → 1 ≤ length b.content
    → min (length b.content + length rest) 16 ≡ length b.content
    → b.crc < 2 ^ 16
    → check_blocks (suc fuel) (before ++ (block_bytes b ++ rest)) (length before)
      ≡ compare_crc (length before) (dnp3_crc16 b.content) b.crc
        ++ check_blocks fuel
            (before ++ (block_bytes b ++ rest))
            (length before + length b.content + 2)
unfolding check_blocks
check_blocks-block fuel before b rest some_byte cut h =
    let bytes = before ++ (block_bytes b ++ rest) in
    let n = length b.content in
    let size : length bytes ≡ length before + (n + 2 + length rest) = omega (
      arith,
      length-append before (block_bytes b ++ rest),
      length-append (block_bytes b) rest,
      length-append b.content (le_bytes 2 b.crc),
      length-le_bytes 2 b.crc,
    ) in
    let found : min (length bytes - length before - 2) 16 ≡ n = omega (arith, size, cut) in
    let goes_on : (not (ltb (length before) (length bytes))
          || ltb (length bytes - length before) 3
          || ltb (length bytes) (length before + n + 2))
        ≡ false =
      ground (arith, size, some_byte) in
    rw (found, goes_on, slice before b rest, crc_at-inside before b rest h) refl

after_block :
    (before : List ℕ) (b : Block)
    → length before + length b.content + 2 ≡ length (before ++ block_bytes b)
after_block before b = omega (
  arith,
  length-append before (block_bytes b),
  length-append b.content (le_bytes 2 b.crc),
  length-le_bytes 2 b.crc,
)

-- Behind the last block the loop ends.
check_blocks-end : (fuel : ℕ) (bytes : List ℕ) → check_blocks fuel bytes (length bytes) ≡ []
unfolding check_blocks
check_blocks-end zero bytes = refl
check_blocks-end (suc fuel) bytes =
    let ends : ltb (length bytes) (length bytes) ≡ false = ground arith in rw ends refl

step_block :
    (fuel : ℕ) (before : List ℕ) (b : Block) (rest : List ℕ) (later : List CrcFailure)
    → 1 ≤ length b.content
    → min (length b.content + length rest) 16 ≡ length b.content
    → b.crc < 2 ^ 16
    → check_blocks fuel ((before ++ block_bytes b) ++ rest) (length (before ++ block_bytes b))
      ≡ later
    → check_blocks (suc fuel) (before ++ (block_bytes b ++ rest)) (length before)
      ≡ compare_crc (length before) (dnp3_crc16 b.content) b.crc ++ later
step_block fuel before b rest later some_byte cut h goes_on =
    check_blocks-block fuel before b rest some_byte cut h
    ∙ ap (◌++◌ (compare_crc (length before) (dnp3_crc16 b.content) b.crc)) (
        ap (check_blocks fuel (before ++ (block_bytes b ++ rest))) (after_block before b)
        ∙ (ap (λ x. check_blocks fuel x (length (before ++ block_bytes b)))
              (sym (append_assoc before (block_bytes b) rest))
            ∙ goes_on))

pub check_blocks-wire :
    (blocks : List Block) (fuel : ℕ) (before : List ℕ)
    → IsCut blocks
    → length blocks ≤ fuel
    → check_blocks fuel (before ++ wire blocks) (length before)
      ≡ wrong_blocks (length before) blocks
unfolding wire wrong_blocks
check_blocks-wire [] fuel before h k =
    ap (λ x. check_blocks fuel x (length before)) (append-nil before) ∙ check_blocks-end fuel before
check_blocks-wire (b ∷ blocks) zero before h k = absurd (omega (arith, k))
check_blocks-wire (b ∷ []) (suc fuel) before (some_byte, short, h) k =
    step_block fuel before b [] [] some_byte (omega (arith, short)) h (
      ap (λ x. check_blocks fuel x (length (before ++ block_bytes b)))
        (append-nil (before ++ block_bytes b))
      ∙ check_blocks-end fuel (before ++ block_bytes b))
check_blocks-wire (b ∷ (c ∷ blocks)) (suc fuel) before (full, h, hs) k =
    step_block fuel before b (wire (c ∷ blocks)) _ (omega (arith, full)) (omega (arith, full)) h (
      check_blocks-wire (c ∷ blocks) fuel (before ++ block_bytes b) hs (omega (arith, k))
      ∙ ap (λ o. wrong_blocks o (c ∷ blocks)) (sym (after_block before b)))
