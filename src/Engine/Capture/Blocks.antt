-- ===== src/Engine/Capture/Blocks.antt =====
-- The blocks of a pcapng file, and what the loop over them makes of each.
use marlinspike_dpi.Prelude.{
  ℕ, ◌+◌, ◌-◌, ◌*◌, ◌/◌, ◌%◌, ◌^◌, ◌<◌, ◌≡◌, ◌≢◌, refl, ap, ◌∙◌, true, false, Option, none, some,
  List, [], ◌++◌, arith, length, length-append, take, drop, take-append, get_elem?, unwrap_or, ltb,
  eqb, eqb_ne, if◌then◌else◌,
}
use mathlib.Core.List.{append_assoc}
use marlinspike_dpi.Engine.Link.{LinkType, ethernet, raw_ip, linux_sll, linux_sll2, from_dlt}
use marlinspike_dpi.Engine.Capture.{got, read_u16, read_u32}
use marlinspike_dpi.Engine.Capture.Words.{
  write_u32, write_u16, four_words, read_exact-append, read_exact_or_eof-append,
}
use marlinspike_dpi.Engine.Capture.Readers.{
  PacketRecord, read_pcapng_block, pcapng_interface_linktype, pcapng_packet_record,
}

-- A block: its type, its length twice, and its body between them.
abbrev pub framed : ℕ → List ℕ → List ℕ
framed type_code body =
    (write_u32 true type_code ++ write_u32 true (12 + length body))
    ++ (body ++ write_u32 true (12 + length body))

length-framed : (type_code : ℕ) (body : List ℕ) → length (framed type_code body) ≡ 12 + length body
length-framed type_code body = omega (arith, length-append body (write_u32 true (12 + length body)))

framed-type_code :
    (type_code : ℕ) (body : List ℕ)
    → type_code < 2 ^ 32
    → read_u32 true (framed type_code body) 0 ≡ type_code
framed-type_code type_code body h = omega (arith, h)

pub read_pcapng_block-framed :
    (type_code : ℕ) (body rest : List ℕ)
    → 12 + length body < 2 ^ 32
    → read_pcapng_block (framed type_code body ++ rest) ≡ got (framed type_code body) rest
unfolding read_pcapng_block
read_pcapng_block-framed type_code body rest h =
    let size = 12 + length body in
    let tail = body ++ write_u32 true size in
    let head = write_u32 true type_code ++ write_u32 true size in
    let size_read : read_u32 true head 4 ≡ size = omega (arith, h) in
    let enough : ltb size 12 ≡ false = ground arith in
    rw
      (
        append_assoc head tail rest,
        read_exact_or_eof-append 8 _ _ (tail ++ rest) refl,
        size_read,
        enough,
        read_exact-append (size - 8) tail rest
            (omega (arith, length-append body (write_u32 true size))),
      )
      refl

-- Interface Description Block: the number of the link type, and what is not read.
abbrev pub interface_body : ℕ → List ℕ → List ℕ
interface_body network options = write_u16 true network ++ options

-- The link type of a number: one that the engine does not know stands for Ethernet.
abbrev pub linktype_of : ℕ → LinkType
linktype_of network =
    if eqb network 101
    then raw_ip
    else if eqb network 113
    then linux_sll
    else if eqb network 276
    then linux_sll2
    else ethernet

linktype_of_lem : (network : ℕ) → unwrap_or (from_dlt network) ethernet ≡ linktype_of network
unfolding from_dlt
linktype_of_lem network = ground arith

pub pcapng_interface_linktype-framed :
    (network : ℕ) (options : List ℕ)
    → network < 2 ^ 16
    → pcapng_interface_linktype (framed 1 (interface_body network options))
      ≡ some (linktype_of network)
unfolding pcapng_interface_linktype
pcapng_interface_linktype-framed network options h =
    let body = interface_body network options in
    let block = framed 1 body in
    let enough : ltb (length block) 12 ≡ false = ground (arith, length-framed 1 body) in
    let read : read_u16 true block 8 ≡ network = omega (arith, h) in
    rw (enough, read, linktype_of_lem network) refl

pub pcapng_interface_linktype-other :
    (type_code : ℕ) (body : List ℕ)
    → type_code < 2 ^ 32
    → type_code ≢ 1
    → pcapng_interface_linktype (framed type_code body) ≡ none
unfolding pcapng_interface_linktype
pcapng_interface_linktype-other type_code body h k =
    let block = framed type_code body in
    let enough : ltb (length block) 12 ≡ false = ground (arith, length-framed type_code body) in
    let kind : eqb type_code 1 ≡ false = eqb_ne type_code 1 k in
    rw (enough, framed-type_code type_code body h, kind) refl

-- An Enhanced Packet Block; `padding` is what stands behind the bytes of the packet.
pub record Enhanced (Time : Type 0) : Type 0 where
  pub interface_id : ℕ
  pub ticks : ℕ
  pub orig_len : ℕ
  pub content : List ℕ
  pub padding : List ℕ
  pub timestamp : Time

module _ {Time : Type 0} where
  abbrev pub enhanced_body : Enhanced Time → List ℕ
  enhanced_body p =
      write_u32 true p.interface_id
      ++ (four_words true (p.ticks / 2 ^ 32) (p.ticks % 2 ^ 32) (length p.content) p.orig_len
          ++ (p.content ++ p.padding))

  abbrev pub enhanced_record : List LinkType → Enhanced Time → PacketRecord Time
  enhanced_record interfaces p = record {
    interface_id = p.interface_id;
    linktype = unwrap_or (get_elem? interfaces p.interface_id) ethernet;
    timestamp = p.timestamp;
    captured_len = length p.content;
    orig_len = p.orig_len;
    data_bytes = p.content;
  }

module _ {Time : Type 0} (timestamp_opt : ℕ → ℕ → Option Time) (now : Time) where
  -- The words fit, and the time stamp is the one that `chrono` makes of the microseconds.
  pub record IsEnhanced (p : Enhanced Time) : Type 0 where
    pub interface_id : p.interface_id < 2 ^ 32
    pub ticks : p.ticks < 2 ^ 64
    pub orig_len : p.orig_len < 2 ^ 32
    pub size : 32 + length (p.content ++ p.padding) < 2 ^ 32
    pub timestamp :
        timestamp_opt (p.ticks / 1_000_000) (p.ticks % 1_000_000 * 1000) ≡ some p.timestamp

  pub pcapng_packet_record-other :
      (type_code : ℕ) (body : List ℕ) (interfaces : List LinkType)
      → type_code < 2 ^ 32
      → type_code ≢ 6
      → pcapng_packet_record timestamp_opt now (framed type_code body) interfaces ≡ got none []
  unfolding pcapng_packet_record
  pcapng_packet_record-other type_code body interfaces h k =
      let block = framed type_code body in
      let enough : ltb (length block) 12 ≡ false = ground (arith, length-framed type_code body) in
      let kind : eqb type_code 6 ≡ false = eqb_ne type_code 6 k in
      rw (enough, framed-type_code type_code body h, kind) refl

  pub pcapng_packet_record-enhanced :
      (p : Enhanced Time) (interfaces : List LinkType)
      → IsEnhanced p
      → pcapng_packet_record timestamp_opt now (framed 6 (enhanced_body p)) interfaces
        ≡ got (some (enhanced_record interfaces p)) []
  unfolding pcapng_packet_record
  pcapng_packet_record-enhanced p interfaces h =
      let body = enhanced_body p in
      let block = framed 6 body in
      let trailer = write_u32 true (12 + length body) in
      let size : length body ≡ 20 + length p.content + length p.padding =
        omega (arith, length-append p.content p.padding) in
      let fits : length p.content < 2 ^ 32 =
        omega (arith, h.size, length-append p.content p.padding) in
      let kind : read_u32 true block 0 ≡ 6 = refl in
      let interface_read : read_u32 true block 8 ≡ p.interface_id = omega (arith, h.interface_id) in
      let high : read_u32 true block 12 ≡ p.ticks / 2 ^ 32 = omega (arith, h.ticks) in
      let low : read_u32 true block 16 ≡ p.ticks % 2 ^ 32 = omega (arith) in
      let captured : read_u32 true block 20 ≡ length p.content = omega (arith, fits) in
      let original : read_u32 true block 24 ≡ p.orig_len = omega (arith, h.orig_len) in
      let ticks : p.ticks / 2 ^ 32 * 2 ^ 32 + p.ticks % 2 ^ 32 ≡ p.ticks = omega arith in
      let long : ltb (length block) 12 ≡ false = ground (arith, length-framed 6 body) in
      let enough : ltb (length block) 32 ≡ false = ground (arith, length-framed 6 body, size) in
      let inside : ltb (length block - 4) (28 + length p.content) ≡ false =
        ground (arith, length-framed 6 body, size) in
      let content : take (length p.content) (drop 28 block) ≡ p.content =
        ap (take (length p.content)) (append_assoc p.content p.padding trailer)
        ∙ take-append p.content (p.padding ++ trailer) in
      rw
        (
          long, kind, enough, interface_read, high, low, ticks, captured, original, inside,
          h.timestamp, content,
        )
        refl
