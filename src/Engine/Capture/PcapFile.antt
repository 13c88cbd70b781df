-- ===== src/Engine/Capture/PcapFile.antt =====
-- The whole classic pcap file, with the header before its packets.
use marlinspike_dpi.Engine.Capture.PcapLoop.{handed, ended, pcap_loop-sent}
use marlinspike_dpi.Prelude.{
  ℕ, suc, ◌+◌, ◌^◌, ◌<◌, ◌≡◌, refl, ap, ◌∙◌, Bool, Option, none, some, List, [], ◌∷◌, ◌++◌, arith,
  length, All, take,
}
use mathlib.Core.List.{append_assoc}
use marlinspike_dpi.Engine.Link.{LinkType, ethernet, raw_ip, linux_sll, linux_sll2, dlt}
use marlinspike_dpi.Engine.Link.Laws.{from_dlt-dlt}
use marlinspike_dpi.Engine.Capture.{
  CaptureError, got, PcapFlavor, little_micro, big_micro, little_nano, big_nano, is_little_endian,
  read_u16, read_u32, detect_capture_format, pcap, unexpected_eof,
}
use marlinspike_dpi.Engine.Capture.Words.{
  write_u32, write_u16, read_exact-append, read_exact_or_eof-append,
}
use marlinspike_dpi.Engine.Capture.Readers.{
  PacketRecord, Outcome, read_pcap_global_header, read_capture_packets, read_pcap_packet,
}
use marlinspike_dpi.Engine.Capture.Pcap.{
  Sent, IsSent, packets_bytes, length-packets_bytes, packet_header, read_pcap_packet-end,
  read_pcap_packet-cut,
}

abbrev pub magic : PcapFlavor → List ℕ
magic little_micro = 0xD4 ∷ 0xC3 ∷ 0xB2 ∷ 0xA1 ∷ []
magic big_micro = 0xA1 ∷ 0xB2 ∷ 0xC3 ∷ 0xD4 ∷ []
magic little_nano = 0x4D ∷ 0x3C ∷ 0xB2 ∷ 0xA1 ∷ []
magic big_nano = 0xA1 ∷ 0xB2 ∷ 0x3C ∷ 0x4D ∷ []

-- Version 2.4, three words that are not read, and the link type.
abbrev pub behind_magic : Bool → ℕ → ℕ → ℕ → ℕ → List ℕ
behind_magic little zone digits limit network =
    write_u16 little 2
    ++ (write_u16 little 4
        ++ (write_u32 little zone
            ++ (write_u32 little digits ++ (write_u32 little limit ++ write_u32 little network))))

abbrev pub global_header : PcapFlavor → ℕ → ℕ → ℕ → LinkType → List ℕ
global_header flavor zone digits limit linktype =
    magic flavor ++ behind_magic (is_little_endian flavor) zone digits limit (dlt linktype)

length-global_header :
    (flavor : PcapFlavor) (zone digits limit : ℕ) (linktype : LinkType)
    → length (global_header flavor zone digits limit linktype) ≡ 24
length-global_header little_micro zone digits limit linktype = refl
length-global_header big_micro zone digits limit linktype = refl
length-global_header little_nano zone digits limit linktype = refl
length-global_header big_nano zone digits limit linktype = refl

dlt-lt : (linktype : LinkType) → dlt linktype < 2 ^ 32
unfolding dlt
dlt-lt ethernet = omega arith
dlt-lt raw_ip = omega arith
dlt-lt linux_sll = omega arith
dlt-lt linux_sll2 = omega arith

abbrev Fields : PcapFlavor → ℕ → ℕ → ℕ → LinkType → Type 0
Fields flavor zone digits limit linktype =
    let h = global_header flavor zone digits limit linktype in
    let little = is_little_endian flavor in
    (read_u16 little h 4 ≡ 2) × (read_u16 little h 6 ≡ 4) × (read_u32 little h 20 ≡ dlt linktype)

header_fields :
    (flavor : PcapFlavor) (zone digits limit : ℕ) (linktype : LinkType)
    → Fields flavor zone digits limit linktype
header_fields little_micro zone digits limit linktype = (refl, refl, omega (arith, dlt-lt linktype))
header_fields big_micro zone digits limit linktype = (refl, refl, omega (arith, dlt-lt linktype))
header_fields little_nano zone digits limit linktype = (refl, refl, omega (arith, dlt-lt linktype))
header_fields big_nano zone digits limit linktype = (refl, refl, omega (arith, dlt-lt linktype))

read_pcap_global_header-written :
    (flavor : PcapFlavor) (zone digits limit : ℕ) (linktype : LinkType) (rest : List ℕ)
    → read_pcap_global_header flavor (global_header flavor zone digits limit linktype ++ rest)
      ≡ got linktype rest
unfolding read_pcap_global_header
read_pcap_global_header-written flavor zone digits limit linktype rest =
    let fields = header_fields flavor zone digits limit linktype in
    rw
      (
        read_exact-append 24 (global_header flavor zone digits limit linktype) rest
            (length-global_header flavor zone digits limit linktype),
        fields.0,
        fields.1,
        fields.2,
        from_dlt-dlt linktype,
      )
      refl

detect_capture_format-magic :
    (flavor : PcapFlavor) (rest : List ℕ)
    → detect_capture_format (magic flavor ++ rest) ≡ got (pcap flavor) []
unfolding detect_capture_format
detect_capture_format-magic little_micro rest =
    rw (read_exact_or_eof-append 4 0xD4 (0xC3 ∷ 0xB2 ∷ 0xA1 ∷ []) rest refl) refl
detect_capture_format-magic big_micro rest =
    rw (read_exact_or_eof-append 4 0xA1 (0xB2 ∷ 0xC3 ∷ 0xD4 ∷ []) rest refl) refl
detect_capture_format-magic little_nano rest =
    rw (read_exact_or_eof-append 4 0x4D (0x3C ∷ 0xB2 ∷ 0xA1 ∷ []) rest refl) refl
detect_capture_format-magic big_nano rest =
    rw (read_exact_or_eof-append 4 0xA1 (0xB2 ∷ 0x3C ∷ 0x4D ∷ []) rest refl) refl

module _ {Time : Type 0} where
  -- The header, the packets, and what stands behind them.
  abbrev pub file_of : PcapFlavor → ℕ → ℕ → ℕ → LinkType → List (Sent Time) → List ℕ → List ℕ
  file_of flavor zone digits limit linktype packets tail =
      global_header flavor zone digits limit linktype ++ packets_bytes flavor packets tail

module _ {Time S : Type 0} (timestamp_opt : ℕ → ℕ → Option Time) (now : Time)
    (on_packet : PacketRecord Time → S → Outcome S) where
  read_capture_packets-sent :
      (flavor : PcapFlavor) (zone digits limit : ℕ) (linktype : LinkType)
      (packets : List (Sent Time)) (tail : List ℕ) (ending : Option CaptureError) (s : S)
      → All (IsSent timestamp_opt now flavor) packets
      → read_pcap_packet timestamp_opt now flavor linktype tail
        ≡ ended timestamp_opt now on_packet ending
      → read_capture_packets timestamp_opt now on_packet
          (file_of flavor zone digits limit linktype packets tail)
          s
        ≡ handed timestamp_opt now on_packet ending linktype packets s
  unfolding read_capture_packets
  read_capture_packets-sent flavor zone digits limit linktype packets tail ending s h t =
      let behind = behind_magic (is_little_endian flavor) zone digits limit (dlt linktype) in
      let rest = packets_bytes flavor packets tail in
      rw
        (
          ap detect_capture_format (append_assoc (magic flavor) behind rest)
              ∙ detect_capture_format-magic flavor (behind ++ rest),
          read_pcap_global_header-written flavor zone digits limit linktype rest,
        )
        (pcap_loop-sent timestamp_opt now on_packet packets (suc (length rest)) flavor linktype tail
          ending s h t (omega (arith, length-packets_bytes flavor packets tail)))

  -- A classic pcap file in either byte order and with microseconds or nanoseconds, of any link type
  -- that the engine knows, is read packet by packet: the callback is called on every packet that
  -- was written, in order, with its bytes, its lengths, its time stamp and the link type, until it
  -- fails, and then with no other. The words of the packets fit 32 bits, and `chrono` has a time
  -- for each time stamp.
  pub read_capture_packets-file_of :
      (flavor : PcapFlavor) (zone digits limit : ℕ) (linktype : LinkType)
      (packets : List (Sent Time)) (s : S)
      → All (IsSent timestamp_opt now flavor) packets
      → read_capture_packets timestamp_opt now on_packet
          (file_of flavor zone digits limit linktype packets [])
          s
        ≡ handed timestamp_opt now on_packet none linktype packets s
  read_capture_packets-file_of flavor zone digits limit linktype packets s h =
      read_capture_packets-sent flavor zone digits limit linktype packets [] none s h
        (read_pcap_packet-end timestamp_opt now flavor linktype)

  -- A classic pcap file whose last packet is cut short anywhere, in its header or in its bytes,
  -- hands over every packet before it and then ends with the error of an unexpected end of file,
  -- unless the callback fails earlier. The words of the packets fit 32 bits, and `chrono` has a
  -- time for each time stamp.
  pub read_capture_packets-cut :
      (flavor : PcapFlavor) (zone digits limit : ℕ) (linktype : LinkType)
      (packets : List (Sent Time)) (p : Sent Time) (k : ℕ) (s : S)
      → All (IsSent timestamp_opt now flavor) packets
      → IsSent timestamp_opt now flavor p
      → 0 < k
      → k < 16 + length p.content
      → read_capture_packets timestamp_opt now on_packet
          (file_of flavor zone digits limit linktype packets
            (take k (packet_header flavor p ++ p.content)))
          s
        ≡ handed timestamp_opt now on_packet (some unexpected_eof) linktype packets s
  read_capture_packets-cut flavor zone digits limit linktype packets p k s h hp some_bytes short =
      read_capture_packets-sent flavor zone digits limit linktype packets
        (take k (packet_header flavor p ++ p.content)) (some unexpected_eof) s h
        (read_pcap_packet-cut timestamp_opt now flavor linktype p k hp some_bytes short)
