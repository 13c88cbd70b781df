-- ===== src/Engine/Capture/Tests.antt =====
-- Runs of the capture readers on small files, and their properties at concrete inputs.
use marlinspike_dpi.Prelude.{
  ℕ, ◌+◌, ◌*◌, ◌≡◌, refl, Option, none, some, List, [], ◌∷◌, ◌++◌, arith, take,
}
use marlinspike_dpi.Engine.Link.{ethernet, raw_ip, linux_sll, dlt, from_dlt}
use marlinspike_dpi.Engine.Capture.{
  unexpected_eof, sink_error, big_nano, little_micro, read_exact_or_eof, read_exact,
  detect_capture_format,
}
use marlinspike_dpi.Engine.Capture.Readers.{
  PacketRecord, Outcome, read_pcapng_block, pcapng_interface_linktype, pcapng_packet_record,
  packet_of, read_pcap_packet, read_pcap_global_header, pcap_loop, pcapng_loop,
  read_capture_packets,
}
use marlinspike_dpi.Engine.Capture.Pcap.{Sent, IsSent, packet_header, packets_bytes}
use marlinspike_dpi.Engine.Capture.PcapLoop.{handed}
use marlinspike_dpi.Engine.Capture.PcapFile.{
  file_of, read_capture_packets-file_of, read_capture_packets-cut,
}
use marlinspike_dpi.Engine.Capture.Blocks.{Enhanced, IsEnhanced}
use marlinspike_dpi.Engine.Capture.PcapngFile.{
  Block, interface, enhanced, another, section_header, blocks_bytes, replayed,
  read_capture_packets-blocks,
}
use marlinspike_dpi.Engine.Capture.Fuel.{loops_enough}

program : Unit {0}
unfolding packets_bytes handed blocks_bytes replayed dlt from_dlt read_exact_or_eof read_exact
    detect_capture_format read_pcapng_block pcapng_interface_linktype pcapng_packet_record packet_of
    read_pcap_packet read_pcap_global_header pcap_loop pcapng_loop read_capture_packets
program = tt

-- Nanoseconds since the epoch; every one of them is a time.
abbrev instant : ℕ → ℕ → Option ℕ
instant seconds nanos = some (seconds * 1_000_000_000 + nanos)

-- A callback that keeps the packets, and one that fails at the first.
abbrev collect : PacketRecord ℕ → List (PacketRecord ℕ) → Outcome (List (PacketRecord ℕ))
collect packet packets = record { state = packets ++ (packet ∷ []); failure = none }

abbrev refuse : PacketRecord ℕ → ℕ → Outcome ℕ
refuse packet calls = record { state = calls + 1; failure = some sink_error }

abbrev first_packet : Sent ℕ
first_packet = record {
  seconds = 7;
  fraction = 500;
  orig_len = 60;
  content = 0x45 ∷ 0x00 ∷ 0x01 ∷ [];
  timestamp = 7_000_000_500;
}

abbrev second_packet : Sent ℕ
second_packet = record {
  seconds = 8;
  fraction = 0;
  orig_len = 2;
  content = 0xAA ∷ 0xBB ∷ [];
  timestamp = 8_000_000_000;
}

first_packet-IsSent : IsSent instant 0 big_nano first_packet
first_packet-IsSent = record {
  seconds = omega arith;
  fraction = omega arith;
  orig_len = omega arith;
  content = omega arith;
  timestamp = refl;
}

second_packet-IsSent : IsSent instant 0 big_nano second_packet
second_packet-IsSent = record {
  seconds = omega arith;
  fraction = omega arith;
  orig_len = omega arith;
  content = omega arith;
  timestamp = refl;
}

abbrev two_packets : List (Sent ℕ)
two_packets = first_packet ∷ second_packet ∷ []

-- A callback that fails is not called again.
refused :
    read_capture_packets instant 0 refuse (file_of big_nano 0 0 65535 raw_ip two_packets []) 0
    ≡ record { state = 1; failure = some sink_error }
unfolding program
refused = refl

read_capture_packets-file_of_example :
    read_capture_packets instant 0 collect (file_of big_nano 0 0 65535 raw_ip two_packets []) []
    ≡ handed instant 0 collect none raw_ip two_packets []
read_capture_packets-file_of_example =
    read_capture_packets-file_of instant 0 collect big_nano 0 0 65535 raw_ip two_packets []
      (first_packet-IsSent, (second_packet-IsSent, tt))

-- The second packet lacks its last byte.
read_capture_packets-cut_example :
    read_capture_packets instant 0 collect
      (file_of big_nano 0 0 65535 raw_ip
        (first_packet ∷ [])
        (take 17 (packet_header big_nano second_packet ++ second_packet.content)))
      []
    ≡ handed instant 0 collect (some unexpected_eof) raw_ip (first_packet ∷ []) []
read_capture_packets-cut_example =
    read_capture_packets-cut instant 0 collect big_nano 0 0 65535 raw_ip (first_packet ∷ [])
      second_packet 17 [] (first_packet-IsSent, tt) second_packet-IsSent (omega arith) (omega arith)

-- A packet of the second interface, behind a block that is skipped.
abbrev third_packet : Enhanced ℕ
third_packet = record {
  interface_id = 1;
  ticks = 3_000_001;
  orig_len = 3;
  content = 0x60 ∷ 0x01 ∷ 0x02 ∷ [];
  padding = 0 ∷ [];
  timestamp = 3_000_001_000;
}

third_packet-IsEnhanced : IsEnhanced instant 0 third_packet
third_packet-IsEnhanced = record {
  interface_id = omega arith;
  ticks = omega arith;
  orig_len = omega arith;
  size = omega arith;
  timestamp = refl;
}

abbrev blocks : List (Block ℕ)
blocks =
    interface 105 []
    ∷ interface 113 (0 ∷ 0 ∷ [])
    ∷ another 5 (1 ∷ 2 ∷ 3 ∷ 4 ∷ [])
    ∷ enhanced third_packet
    ∷ []

read_capture_packets-blocks_example :
    read_capture_packets instant 0 collect
      (blocks_bytes (another section_header (0 ∷ 0 ∷ 0 ∷ 0 ∷ []) ∷ blocks))
      []
    ≡ replayed instant 0 collect blocks [] []
read_capture_packets-blocks_example =
    read_capture_packets-blocks instant 0 collect (0 ∷ 0 ∷ 0 ∷ 0 ∷ []) blocks [] (omega arith) (
      (omega arith, omega arith),
      (
        (omega arith, omega arith),
        ((omega arith, omega arith, omega arith, omega arith), (third_packet-IsEnhanced, tt)),
      ),
    )

third_packet_linktype : replayed instant 0 collect blocks [] [] ≡ record {
  state =
      record {
        interface_id = 1;
        linktype = linux_sll;
        timestamp = 3_000_001_000;
        captured_len = 3;
        orig_len = 3;
        data_bytes = 0x60 ∷ 0x01 ∷ 0x02 ∷ [];
      }
      ∷ [];
  failure = none;
}
unfolding program
third_packet_linktype = refl

abbrev cut_block : List ℕ
cut_block = 0x06 ∷ 0 ∷ 0 ∷ 0 ∷ 0x20 ∷ 0 ∷ 0 ∷ 0 ∷ 1 ∷ 2 ∷ []

loops_enough_example :
    (pcapng_loop instant 0 collect 11 [] cut_block []
      ≡ pcapng_loop instant 0 collect 99 [] cut_block [])
    × (pcap_loop instant 0 collect 11 little_micro ethernet cut_block []
        ≡ pcap_loop instant 0 collect 99 little_micro ethernet cut_block [])
loops_enough_example =
    loops_enough instant 0 collect 11 99 [] little_micro ethernet cut_block [] (omega arith)
      (omega arith)
