-- ===== src/Engine/Capture/Readers.antt =====
-- `src/engine/mod.rs`: the packets of a capture file, handed to a callback in turn.
use marlinspike_dpi.Prelude.{
  ℕ, zero, suc, ◌+◌, ◌-◌, ◌*◌, ◌/◌, ◌%◌, ◌^◌, true, ◌||◌, not, Option, none, some, List, [], ◌∷◌,
  ◌++◌, if◌then◌else◌, eqb, leb, ltb, length, drop, take, get_elem?, unwrap_or,
}
use marlinspike_dpi.Engine.Link.{LinkType, ethernet, from_dlt}
use marlinspike_dpi.Engine.Capture.{
  CaptureError, small_block, short_block, short_packet_block, packet_exceeds_block,
  unsupported_version, unsupported_linktype, timestamp_overflow, timestamp_range, Reading, got, eof,
  failed, and_then, read_exact_or_eof, read_exact, PcapFlavor, is_little_endian,
  timestamp_unit_nanos, CaptureFormat, pcapng, pcap, read_u16, read_u32, detect_capture_format,
}

pub record PacketRecord (Time : Type 0) : Type 0 where
  pub interface_id : ℕ
  pub linktype : LinkType
  pub timestamp : Time
  pub captured_len : ℕ
  pub orig_len : ℕ
  pub data_bytes : List ℕ

-- The state of the callback, and the error that ended the reading.
pub record Outcome (S : Type 0) : Type 0 where
  pub state : S
  pub failure : Option CaptureError

unfoldable pub read_pcapng_block : List ℕ → Reading (List ℕ)
read_pcapng_block bytes = and_then (read_exact_or_eof 8 bytes) (λ header rest.
    let block_len = read_u32 true header 4 in
    if ltb block_len 12
    then failed small_block
    else and_then (read_exact (block_len - 8) rest) (λ body left. got (header ++ body) left))

-- An Interface Description Block; an unknown number stands for Ethernet.
unfoldable pub pcapng_interface_linktype : List ℕ → Option LinkType
pcapng_interface_linktype block =
    if ltb (length block) 12
    then none
    else if not (eqb (read_u32 true block 0) 1)
    then none
    else some (unwrap_or (from_dlt (read_u16 true block 8)) ethernet)

unfoldable pub read_pcap_global_header : PcapFlavor → List ℕ → Reading LinkType
read_pcap_global_header flavor bytes = and_then (read_exact 24 bytes) (λ header rest.
    let little = is_little_endian flavor in
    if not (eqb (read_u16 little header 4) 2) || not (eqb (read_u16 little header 6) 4)
    then failed unsupported_version
    else elim (from_dlt (read_u32 little header 20)) [
      | none ↦ failed unsupported_linktype
      | some linktype ↦ got linktype rest
    ])

-- `chrono`'s `timestamp_opt` at seconds and nanoseconds, and `Utc::now`, are parameters.
module _ {Time : Type 0} (timestamp_opt : ℕ → ℕ → Option Time) (now : Time) where
  -- The block is not a packet, or it is one, or it is malformed.
  unfoldable pub pcapng_packet_record :
      List ℕ → List LinkType → Reading (Option (PacketRecord Time))
  pcapng_packet_record block interfaces =
      let captured_len = read_u32 true block 20 in
      let timestamp_us = read_u32 true block 12 * 2 ^ 32 + read_u32 true block 16 in
      if ltb (length block) 12
      then failed short_block
      else if not (eqb (read_u32 true block 0) 6)
      then got none []
      else if ltb (length block) 32
      then failed short_packet_block
      else if ltb (length block - 4) (28 + captured_len)
      then failed packet_exceeds_block
      else got
          (some (record {
            interface_id = read_u32 true block 8;
            linktype = unwrap_or (get_elem? interfaces (read_u32 true block 8)) ethernet;
            timestamp =
                unwrap_or
                  (timestamp_opt (timestamp_us / 1_000_000) (timestamp_us % 1_000_000 * 1000)) now;
            captured_len = captured_len;
            orig_len = read_u32 true block 24;
            data_bytes = take captured_len (drop 28 block);
          }))
          []

  unfoldable pub packet_of : PcapFlavor → LinkType → List ℕ → List ℕ → Reading (PacketRecord Time)
  packet_of flavor linktype header rest =
      let little = is_little_endian flavor in
      let nanos_total = read_u32 little header 4 * timestamp_unit_nanos flavor in
      let incl_len = read_u32 little header 8 in
      if leb (2 ^ 64) nanos_total
      then failed timestamp_overflow
      else elim (timestamp_opt (read_u32 little header 0 + nanos_total / 1_000_000_000)
          (nanos_total % 1_000_000_000)) [
            | none ↦ failed timestamp_range
            | some timestamp ↦ and_then (read_exact incl_len rest) (λ bytes left.
                got
                  (record {
                    interface_id = 0;
                    linktype = linktype;
                    timestamp = timestamp;
                    captured_len = incl_len;
                    orig_len = read_u32 little header 12;
                    data_bytes = bytes;
                  })
                  left)
          ]

  unfoldable pub read_pcap_packet : PcapFlavor → LinkType → List ℕ → Reading (PacketRecord Time)
  read_pcap_packet flavor linktype bytes =
      and_then (read_exact_or_eof 16 bytes) (packet_of flavor linktype)

  module _ {S : Type 0} (on_packet : PacketRecord Time → S → Outcome S) where
    -- The loop over the packets of a classic file, on fuel.
    unfoldable pub pcap_loop : ℕ → PcapFlavor → LinkType → List ℕ → S → Outcome S
    pcap_loop zero flavor linktype bytes s = record { state = s; failure = none }
    pcap_loop (suc fuel) flavor linktype bytes s = elim (read_pcap_packet flavor linktype bytes) [
      | eof ↦ record { state = s; failure = none }
      | failed e ↦ record { state = s; failure = some e }
      | got packet rest ↦ elim (on_packet packet s).failure [
        | none ↦ pcap_loop fuel flavor linktype rest (on_packet packet s).state
        | some e ↦ on_packet packet s
      ]
    ]

    -- The loop over the blocks of a pcapng file, with the interfaces in the order they were seen.
    unfoldable pub pcapng_loop : ℕ → List LinkType → List ℕ → S → Outcome S
    pcapng_loop zero interfaces bytes s = record { state = s; failure = none }
    pcapng_loop (suc fuel) interfaces bytes s = elim (read_pcapng_block bytes) [
      | eof ↦ record { state = s; failure = none }
      | failed e ↦ record { state = s; failure = some e }
      | got block rest ↦ elim (pcapng_interface_linktype block) [
        | some linktype ↦ pcapng_loop fuel (interfaces ++ (linktype ∷ [])) rest s
        | none ↦ elim (pcapng_packet_record block interfaces) [
          | eof ↦ record { state = s; failure = none }
          | failed e ↦ record { state = s; failure = some e }
          | got none left ↦ pcapng_loop fuel interfaces rest s
          | got (some packet) left ↦ elim (on_packet packet s).failure [
            | none ↦ pcapng_loop fuel interfaces rest (on_packet packet s).state
            | some e ↦ on_packet packet s
          ]
        ]
      ]
    ]

    abbrev pub read_pcap_file : PcapFlavor → List ℕ → S → Reading LinkType → Outcome S
    read_pcap_file flavor bytes s (got linktype rest) =
        pcap_loop (suc (length rest)) flavor linktype rest s
    read_pcap_file flavor bytes s eof = record { state = s; failure = none }
    read_pcap_file flavor bytes s (failed e) = record { state = s; failure = some e }

    abbrev pub read_by_format : List ℕ → S → Reading CaptureFormat → Outcome S
    read_by_format bytes s (got pcapng left) = pcapng_loop (suc (length bytes)) [] bytes s
    read_by_format bytes s (got (pcap flavor) left) =
        read_pcap_file flavor bytes s (read_pcap_global_header flavor bytes)
    read_by_format bytes s eof = record { state = s; failure = none }
    read_by_format bytes s (failed e) = record { state = s; failure = some e }

    unfoldable pub read_capture_packets : List ℕ → S → Outcome S
    read_capture_packets bytes s = read_by_format bytes s (detect_capture_format bytes)
