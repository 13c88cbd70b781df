-- ===== src/Engine/Capture/Pcap.antt =====
-- A classic pcap file is read back packet by packet.
use marlinspike_dpi.Prelude.{
  ℕ, ◌+◌, ◌-◌, ◌*◌, ◌/◌, ◌%◌, ◌^◌, ◌<◌, ◌≤◌, ◌≡◌, refl, false, Option, some, List, [], ◌∷◌, ◌++◌,
  arith, length, length-append, take, take-append_long, length-take, ltb, Bool-cases, leb, inl, inr,
}
use marlinspike_dpi.Engine.Link.{LinkType}
use marlinspike_dpi.Engine.Capture.{
  got, eof, failed, unexpected_eof, PcapFlavor, little_micro, big_micro, little_nano, big_nano,
  is_little_endian, timestamp_unit_nanos, read_exact_or_eof,
}
use marlinspike_dpi.Engine.Capture.Words.{
  four_words, length-four_words, four_words-read, read_exact-append, read_exact_or_eof-append,
  read_exact-short, read_exact_or_eof-short,
}
use marlinspike_dpi.Engine.Capture.Readers.{PacketRecord, packet_of, read_pcap_packet}

-- What a capture tool writes for one packet.
pub record Sent (Time : Type 0) : Type 0 where
  pub seconds : ℕ
  pub fraction : ℕ
  pub orig_len : ℕ
  pub content : List ℕ
  pub timestamp : Time

module _ {Time : Type 0} where
  abbrev pub packet_header : PcapFlavor → Sent Time → List ℕ
  packet_header flavor p =
      four_words (is_little_endian flavor) p.seconds p.fraction (length p.content) p.orig_len

  -- The packets, and what stands behind them.
  unfoldable pub packets_bytes : PcapFlavor → List (Sent Time) → List ℕ → List ℕ
  packets_bytes flavor [] tail = tail
  packets_bytes flavor (p ∷ packets) tail =
      packet_header flavor p ++ (p.content ++ packets_bytes flavor packets tail)

  abbrev pub record_of : LinkType → Sent Time → PacketRecord Time
  record_of linktype p = record {
    interface_id = 0;
    linktype = linktype;
    timestamp = p.timestamp;
    captured_len = length p.content;
    orig_len = p.orig_len;
    data_bytes = p.content;
  }

module _ {Time : Type 0} where
  -- Every packet takes bytes, so that the bytes count enough rounds.
  pub length-packets_bytes :
      (flavor : PcapFlavor) (packets : List (Sent Time)) (tail : List ℕ)
      → length packets ≤ length (packets_bytes flavor packets tail)
  unfolding packets_bytes
  length-packets_bytes flavor [] tail = omega arith
  length-packets_bytes flavor (p ∷ packets) tail = omega (
    arith,
    length-packets_bytes flavor packets tail,
    length-append (packet_header flavor p) (p.content ++ packets_bytes flavor packets tail),
    length-append p.content (packets_bytes flavor packets tail),
    length-four_words (is_little_endian flavor) p.seconds p.fraction (length p.content) p.orig_len,
  )

abbrev pub nanos : PcapFlavor → ℕ → ℕ
nanos flavor fraction = fraction * timestamp_unit_nanos flavor

module _ {Time : Type 0} (timestamp_opt : ℕ → ℕ → Option Time) (now : Time) where
  -- The words fit, and the time stamp is the one that `chrono` makes of seconds and fraction.
  pub record IsSent (flavor : PcapFlavor) (p : Sent Time) : Type 0 where
    pub seconds : p.seconds < 2 ^ 32
    pub fraction : p.fraction < 2 ^ 32
    pub orig_len : p.orig_len < 2 ^ 32
    pub content : length p.content < 2 ^ 32
    pub timestamp :
        timestamp_opt
          (p.seconds + nanos flavor p.fraction / 1_000_000_000)
          (nanos flavor p.fraction % 1_000_000_000)
        ≡ some p.timestamp

  nanos_small :
      (flavor : PcapFlavor) (fraction : ℕ)
      → fraction < 2 ^ 32
      → leb (2 ^ 64) (nanos flavor fraction) ≡ false
  nanos_small little_micro fraction h = ground (arith, h)
  nanos_small big_micro fraction h = ground (arith, h)
  nanos_small little_nano fraction h = ground (arith, h)
  nanos_small big_nano fraction h = ground (arith, h)

  packet_of-sent :
      (flavor : PcapFlavor) (linktype : LinkType) (p : Sent Time) (rest : List ℕ)
      → IsSent flavor p
      → packet_of timestamp_opt now flavor linktype (packet_header flavor p) (p.content ++ rest)
        ≡ got (record_of linktype p) rest
  unfolding packet_of
  packet_of-sent flavor linktype p rest h =
      let words =
        four_words-read (is_little_endian flavor) p.seconds p.fraction (length p.content) p.orig_len
          h.seconds h.fraction h.content h.orig_len in
      rw
        (
          words.0,
          words.1,
          nanos_small flavor p.fraction h.fraction,
          h.timestamp,
          words.2,
          words.3,
          read_exact-append (length p.content) p.content rest refl,
        )
        refl

  header_head :
      (flavor : PcapFlavor) (p : Sent Time) (rest : List ℕ)
      → read_exact_or_eof 16 (packet_header flavor p ++ rest) ≡ got (packet_header flavor p) rest
  header_head little_micro p rest = read_exact_or_eof-append 16 _ _ rest refl
  header_head big_micro p rest = read_exact_or_eof-append 16 _ _ rest refl
  header_head little_nano p rest = read_exact_or_eof-append 16 _ _ rest refl
  header_head big_nano p rest = read_exact_or_eof-append 16 _ _ rest refl

  pub read_pcap_packet-sent :
      (flavor : PcapFlavor) (linktype : LinkType) (p : Sent Time) (rest : List ℕ)
      → IsSent flavor p
      → read_pcap_packet timestamp_opt now flavor linktype
          (packet_header flavor p ++ (p.content ++ rest))
        ≡ got (record_of linktype p) rest
  unfolding read_pcap_packet
  read_pcap_packet-sent flavor linktype p rest h =
      rw (header_head flavor p (p.content ++ rest)) (packet_of-sent flavor linktype p rest h)

  pub read_pcap_packet-end :
      (flavor : PcapFlavor) (linktype : LinkType)
      → read_pcap_packet timestamp_opt now flavor linktype [] ≡ eof
  unfolding read_pcap_packet read_exact_or_eof
  read_pcap_packet-end flavor linktype = refl

  packet_of-cut :
      (flavor : PcapFlavor) (linktype : LinkType) (p : Sent Time) (short : List ℕ)
      → IsSent flavor p
      → length short < length p.content
      → packet_of timestamp_opt now flavor linktype (packet_header flavor p) short
        ≡ failed unexpected_eof
  unfolding packet_of
  packet_of-cut flavor linktype p short h k =
      let words =
        four_words-read (is_little_endian flavor) p.seconds p.fraction (length p.content) p.orig_len
          h.seconds h.fraction h.content h.orig_len in
      rw
        (
          words.0,
          words.1,
          nanos_small flavor p.fraction h.fraction,
          h.timestamp,
          words.2,
          read_exact-short (length p.content) short k,
        )
        refl

  -- A packet that the file does not hold whole is an error, wherever it is cut.
  pub read_pcap_packet-cut :
      (flavor : PcapFlavor) (linktype : LinkType) (p : Sent Time) (k : ℕ)
      → IsSent flavor p
      → 0 < k
      → k < 16 + length p.content
      → read_pcap_packet timestamp_opt now flavor linktype
          (take k (packet_header flavor p ++ p.content))
        ≡ failed unexpected_eof
  unfolding read_pcap_packet
  read_pcap_packet-cut flavor linktype p k h some_bytes short =
      let header = packet_header flavor p in
      let sixteen : length header ≡ 16 =
        length-four_words (is_little_endian flavor) p.seconds p.fraction (length p.content)
          p.orig_len in
      let whole : length (header ++ p.content) ≡ 16 + length p.content =
        omega (arith, length-append header p.content, sixteen) in
      let given : length (take k (header ++ p.content)) ≡ k =
        omega (arith, length-take k (header ++ p.content), whole, short) in
      elim (Bool-cases (ltb k 16)) [
        | inl inside ↦
            let few : k < 16 = ground (arith, inside) in
            rw
              (read_exact_or_eof-short 16 (take k (header ++ p.content))
                (omega (arith, given, some_bytes)) (omega (arith, given, few)))
              refl
        | inr behind ↦
            let enough : 16 ≤ k = ground (arith, behind) in
            let rest = take (k - length header) p.content in
            let left : length rest < length p.content =
              omega (arith, length-take (k - length header) p.content, sixteen, enough, short) in
            rw
              (
                take-append_long k header p.content (omega (arith, sixteen, enough)),
                header_head flavor p rest,
              )
              (packet_of-cut flavor linktype p rest h left)
      ]
