-- ===== src/Engine/Capture/PcapngFile.antt =====
-- The whole pcapng file: a section header, interfaces, packets and other blocks in any order.
use marlinspike_dpi.Prelude.{
  ℕ, zero, suc, ◌-◌, ◌^◌, ◌<◌, ◌≤◌, ◌≡◌, ◌≢◌, refl, Option, none, some, List, [], ◌∷◌, ◌++◌, arith,
  length, length-append, Option-cases, inl, inr, All,
}
use marlinspike_dpi.Engine.Link.{LinkType}
use marlinspike_dpi.Engine.Capture.{got, detect_capture_format, read_exact_or_eof, pcapng}
use marlinspike_dpi.Engine.Capture.Words.{read_exact_or_eof-append}
use marlinspike_dpi.Engine.Capture.Readers.{
  PacketRecord, Outcome, read_pcapng_block, pcapng_loop, read_capture_packets,
}
use marlinspike_dpi.Engine.Capture.Blocks.{
  framed, interface_body, Enhanced, enhanced_body, enhanced_record, IsEnhanced,
  read_pcapng_block-framed, pcapng_interface_linktype-framed, pcapng_interface_linktype-other,
  pcapng_packet_record-other, pcapng_packet_record-enhanced, linktype_of,
}

pub data Block (Time : Type 0) : Type 0 where
  interface : ℕ → List ℕ → Block Time
  enhanced : Enhanced Time → Block Time
  another : ℕ → List ℕ → Block Time

-- The first block of a section has this type; the loop skips it as any other.
abbrev pub section_header : ℕ
section_header = 0x0A0D0D0A

detect_capture_format-framed :
    (header rest : List ℕ)
    → detect_capture_format (framed section_header header ++ rest) ≡ got pcapng []
unfolding detect_capture_format
detect_capture_format-framed header rest =
    rw (read_exact_or_eof-append 4 0x0A (0x0D ∷ 0x0D ∷ 0x0A ∷ []) _ refl) refl

module _ {Time : Type 0} where
  abbrev type_code_of : Block Time → ℕ
  type_code_of (interface network options) = 1
  type_code_of (enhanced p) = 6
  type_code_of (another type_code body) = type_code

  abbrev body_of : Block Time → List ℕ
  body_of (interface network options) = interface_body network options
  body_of (enhanced p) = enhanced_body p
  body_of (another type_code body) = body

  unfoldable pub blocks_bytes : List (Block Time) → List ℕ
  blocks_bytes [] = []
  blocks_bytes (b ∷ blocks) = framed (type_code_of b) (body_of b) ++ blocks_bytes blocks

  length-blocks_bytes : (blocks : List (Block Time)) → length blocks ≤ length (blocks_bytes blocks)
  unfolding blocks_bytes
  length-blocks_bytes [] = omega arith
  length-blocks_bytes (b ∷ blocks) = omega (
    arith,
    length-blocks_bytes blocks,
    length-append (framed (type_code_of b) (body_of b)) (blocks_bytes blocks),
  )

module _ {Time : Type 0} (timestamp_opt : ℕ → ℕ → Option Time) (now : Time) where
  -- Every word fits, every block is shorter than 2^32 bytes, and one of another type is of neither known type.
  abbrev pub IsBlock : Block Time → Type 0
  IsBlock (interface network options) = (network < 2 ^ 16) × (length options < 2 ^ 32 - 14)
  IsBlock (enhanced p) = IsEnhanced timestamp_opt now p
  IsBlock (another type_code body) =
      (type_code < 2 ^ 32) × (type_code ≢ 1) × (type_code ≢ 6) × (length body < 2 ^ 32 - 12)

  read_pcapng_block-IsBlock :
      (b : Block Time) (rest : List ℕ)
      → IsBlock b
      → read_pcapng_block (framed (type_code_of b) (body_of b) ++ rest)
        ≡ got (framed (type_code_of b) (body_of b)) rest
  read_pcapng_block-IsBlock (interface network options) rest h =
      read_pcapng_block-framed 1 (interface_body network options) rest (omega (arith, h.1))
  read_pcapng_block-IsBlock (enhanced p) rest h =
      read_pcapng_block-framed 6 (enhanced_body p) rest (omega (arith, h.size))
  read_pcapng_block-IsBlock (another type_code body) rest (fits, h, k, size) =
      read_pcapng_block-framed type_code body rest (omega (arith, size))

  module _ {S : Type 0} (on_packet : PacketRecord Time → S → Outcome S) where
    -- The callback on every packet in turn, until it fails, with the interfaces in the order of
    -- their blocks.
    unfoldable pub replayed : List (Block Time) → List LinkType → S → Outcome S
    replayed [] interfaces s = record { state = s; failure = none }
    replayed (interface network options ∷ blocks) interfaces s =
        replayed blocks (interfaces ++ (linktype_of network ∷ [])) s
    replayed (another type_code body ∷ blocks) interfaces s = replayed blocks interfaces s
    replayed (enhanced p ∷ blocks) interfaces s =
        elim (on_packet (enhanced_record interfaces p) s).failure [
          | none ↦ replayed blocks interfaces (on_packet (enhanced_record interfaces p) s).state
          | some e ↦ on_packet (enhanced_record interfaces p) s
        ]

    pcapng_loop-blocks :
        (blocks : List (Block Time)) (fuel : ℕ) (interfaces : List LinkType) (s : S)
        → All IsBlock blocks
        → length blocks < fuel
        → pcapng_loop timestamp_opt now on_packet fuel interfaces (blocks_bytes blocks) s
          ≡ replayed blocks interfaces s
    unfolding pcapng_loop blocks_bytes replayed read_pcapng_block read_exact_or_eof
    pcapng_loop-blocks blocks zero interfaces s h k = absurd (omega (arith, k))
    pcapng_loop-blocks [] (suc fuel) interfaces s h k = refl
    pcapng_loop-blocks (interface network options ∷ blocks) (suc fuel) interfaces s (h, hs) k =
        rw
          (
            read_pcapng_block-IsBlock (interface network options) (blocks_bytes blocks) h,
            pcapng_interface_linktype-framed network options h.0,
            pcapng_loop,
          )
          (pcapng_loop-blocks blocks fuel (interfaces ++ (linktype_of network ∷ [])) s hs
            (omega (arith, k)))
    pcapng_loop-blocks (another type_code body ∷ blocks) (suc fuel) interfaces s (h, hs) k =
        rw
          (
            read_pcapng_block-IsBlock (another type_code body) (blocks_bytes blocks) h,
            pcapng_interface_linktype-other type_code body h.0 h.1,
            pcapng_packet_record-other timestamp_opt now type_code body interfaces h.0 h.2,
            pcapng_loop,
          )
          (pcapng_loop-blocks blocks fuel interfaces s hs (omega (arith, k)))
    pcapng_loop-blocks (enhanced p ∷ blocks) (suc fuel) interfaces s (h, hs) k =
        let after = on_packet (enhanced_record interfaces p) s in
        let first = read_pcapng_block-IsBlock (enhanced p) (blocks_bytes blocks) h in
        let skipped =
          pcapng_interface_linktype-other 6 (enhanced_body p) (omega arith) (omega arith) in
        let given = pcapng_packet_record-enhanced timestamp_opt now p interfaces h in
        elim (Option-cases after.failure) [
          | inl q ↦
              rw (first, skipped, given, pcapng_loop, replayed, q)
                (pcapng_loop-blocks blocks fuel interfaces after.state hs (omega (arith, k)))
          | inr (e, q) ↦ rw (first, skipped, given, pcapng_loop, replayed, q) refl
        ]

    -- A pcapng file of one or more sections in little-endian order: the callback is called on every
    -- packet of an Enhanced Packet Block, in order, with its bytes, its lengths, its time stamp in
    -- microseconds and a link type, until it fails, and then with no other; blocks of other types
    -- are skipped. The link type is that of the interface which the packet names, counted from the
    -- start of the file; it is Ethernet where there is no such interface, and where its number is
    -- none of 101, 113 and 276. A block of an interface holds a link type and one of a packet its
    -- fixed fields, the words and the sizes of the blocks fit 32 bits, and `chrono` has a time for
    -- each time stamp.
    pub read_capture_packets-blocks :
        (header : List ℕ) (blocks : List (Block Time)) (s : S)
        → length header < 2 ^ 32 - 12
        → All IsBlock blocks
        → read_capture_packets timestamp_opt now on_packet
            (blocks_bytes (another section_header header ∷ blocks))
            s
          ≡ replayed blocks [] s
    unfolding read_capture_packets blocks_bytes replayed
    read_capture_packets-blocks header blocks s h hs =
        let file = another section_header header ∷ blocks in
        rw (detect_capture_format-framed header (blocks_bytes blocks)) (
          pcapng_loop-blocks file (suc (length (blocks_bytes file))) [] s
            ((omega arith, omega arith, omega arith, h), hs)
            (omega (arith, length-blocks_bytes file)))
