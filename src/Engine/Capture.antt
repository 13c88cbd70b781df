-- ===== src/Engine/Capture.antt =====
-- `src/engine/mod.rs`: the readers of classic pcap and of pcapng files.
pub mod Readers
pub mod Words
pub mod Pcap
pub mod PcapLoop
pub mod PcapFile
pub mod Fuel
pub mod Blocks
pub mod PcapngFile
mod Tests
use marlinspike_dpi.Prelude.{
  ℕ, zero, suc, ◌+◌, ◌-◌, ◌*◌, ◌/◌, ◌%◌, ◌^◌, Bool, true, false, ◌&&◌, ◌||◌, not, Option, none,
  some, List, [], ◌∷◌, ◌++◌, if◌then◌else◌, eqb, leb, ltb, length, drop, take, get_elem?, get_or,
  unwrap_or, ◌==◌, list_eq, nat_eq,
}
use marlinspike_dpi.Prelude.Bytes.{from_be16, from_le16, from_be32, from_le32}
use marlinspike_dpi.Engine.Link.{LinkType, ethernet, from_dlt}

-- An error of the reader underneath, or the message of `DpiError::InvalidCapture`.
pub data CaptureError : Type 0 where
  unexpected_eof : CaptureError
  empty_file : CaptureError
  unknown_magic : CaptureError
  small_block : CaptureError
  short_block : CaptureError
  short_packet_block : CaptureError
  packet_exceeds_block : CaptureError
  unsupported_version : CaptureError
  unsupported_linktype : CaptureError
  timestamp_overflow : CaptureError
  timestamp_range : CaptureError
  sink_error : CaptureError

-- What a reader gives, and the bytes that are left of the file; `eof` is `Ok(None)`.
pub data Reading (A : Type 0) : Type 0 where
  got : A → List ℕ → Reading A
  eof : Reading A
  failed : CaptureError → Reading A

abbrev pub and_then : {A B : Type 0} → Reading A → (A → List ℕ → Reading B) → Reading B
and_then (got a rest) f = f a rest
and_then eof f = eof
and_then (failed e) f = failed e

-- Nothing at all is the end of the file, fewer bytes than asked for are an error.
unfoldable pub read_exact_or_eof : ℕ → List ℕ → Reading (List ℕ)
read_exact_or_eof n [] = if eqb n 0 then got [] [] else eof
read_exact_or_eof n (b ∷ bytes) =
    if ltb (length (b ∷ bytes)) n
    then failed unexpected_eof
    else got (take n (b ∷ bytes)) (drop n (b ∷ bytes))

unfoldable pub read_exact : ℕ → List ℕ → Reading (List ℕ)
read_exact n bytes =
    if ltb (length bytes) n then failed unexpected_eof else got (take n bytes) (drop n bytes)

pub data PcapFlavor : Type 0 where
  little_micro : PcapFlavor
  big_micro : PcapFlavor
  little_nano : PcapFlavor
  big_nano : PcapFlavor

abbrev pub is_little_endian : PcapFlavor → Bool
is_little_endian little_micro = true
is_little_endian little_nano = true
is_little_endian big_micro = false
is_little_endian big_nano = false

abbrev pub timestamp_unit_nanos : PcapFlavor → ℕ
timestamp_unit_nanos little_micro = 1000
timestamp_unit_nanos big_micro = 1000
timestamp_unit_nanos little_nano = 1
timestamp_unit_nanos big_nano = 1

pub data CaptureFormat : Type 0 where
  pcapng : CaptureFormat
  pcap : PcapFlavor → CaptureFormat

-- The four bytes at a place, in either byte order.
abbrev pub read_u32 : Bool → List ℕ → ℕ → ℕ
read_u32 true h i =
    from_le32 (get_or h i 0) (get_or h (i + 1) 0) (get_or h (i + 2) 0) (get_or h (i + 3) 0)
read_u32 false h i =
    from_be32 (get_or h i 0) (get_or h (i + 1) 0) (get_or h (i + 2) 0) (get_or h (i + 3) 0)

abbrev pub read_u16 : Bool → List ℕ → ℕ → ℕ
read_u16 true h i = from_le16 (get_or h i 0) (get_or h (i + 1) 0)
read_u16 false h i = from_be16 (get_or h i 0) (get_or h (i + 1) 0)

-- The file is not moved on: the reader seeks back.
abbrev pub format_of : List ℕ → Reading CaptureFormat
format_of magic =
    if magic == (0x0A ∷ 0x0D ∷ 0x0D ∷ 0x0A ∷ [])
    then got pcapng []
    else if magic == (0xD4 ∷ 0xC3 ∷ 0xB2 ∷ 0xA1 ∷ [])
    then got (pcap little_micro) []
    else if magic == (0xA1 ∷ 0xB2 ∷ 0xC3 ∷ 0xD4 ∷ [])
    then got (pcap big_micro) []
    else if magic == (0x4D ∷ 0x3C ∷ 0xB2 ∷ 0xA1 ∷ [])
    then got (pcap little_nano) []
    else if magic == (0xA1 ∷ 0xB2 ∷ 0x3C ∷ 0x4D ∷ [])
    then got (pcap big_nano) []
    else failed unknown_magic

abbrev pub or_empty : Reading CaptureFormat → Reading CaptureFormat
or_empty (got f rest) = got f rest
or_empty eof = failed empty_file
or_empty (failed e) = failed e

unfoldable pub detect_capture_format : List ℕ → Reading CaptureFormat
detect_capture_format bytes =
    or_empty (and_then (read_exact_or_eof 4 bytes) (λ magic rest. format_of magic))
