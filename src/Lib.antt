-- ===== src/Lib.antt =====
-- Models of the core logic of marlinspike-dpi, a passive deep packet inspector, and the theorems
-- that make it correct.
--
-- The program reads frames, dissects them and emits events. The parts that are modelled:
-- * `Dedup` is src/dedup.rs, the sliding-window filter in front of the emitted events.
--   `Dedup.is_duplicate` is the method, `evict`, `note` and `compute_hash` its steps;
--   `Dedup/Window` treats one call, `Dedup/History` whole runs, `Dedup/Keys` the hashed bytes.
-- * `Bilgepump` is src/bilgepump, the layer-2 monitor. `Bilgepump/State`, `Config` and `Alerts`
--   are the files of those names; `Arp`, `Mac`, `Vlan`, `Stp`, `Dhcp` and `Identity` are the
--   detectors of src/bilgepump/detectors, and `Monitor` is monitor.rs, which calls them in turn:
--   an Ack that the DHCP detector sees teaches the ARP detector a binding, and one eviction runs
--   over all tables. A detector method on `&mut self` is a function to the new state and the
--   alerts. Every protocol feature is taken as compiled in.
-- * `Sparkplug` is src/sparkplug: `Sparkplug/Topic` is topic.rs, `Sparkplug/State` is state.rs,
--   `Sparkplug/Value` is value.rs and `Sparkplug/Decoder` is decoder.rs. `State/Store` treats the
--   store, `State/Births` one session, `State/Sweep` the sweep counter. `Decoder/Readings` and
--   `Decoder/Handlers` hold the methods, `try_decode` the entry point; `Decoder/Resolution` and
--   `Decoder/Epochs` follow what a session knows and its gap signal through them, `Decoder/Names`
--   and `Decoder/Correlation` the events, `Decoder/Runs` sequences of publishes. The reference
--   that `entry_mut` returns is a value, and `write` puts back what the caller changed.
-- * `OpcUa` is src/opc_ua. `OpcUa/State` is state.rs, the reads that wait for their responses:
--   `State/Pending` treats the table, `State/Pairing` what a response is paired with.
--   `OpcUa/Reader` is reader.rs, a cursor whose methods return their result and the cursor after
--   it: `Reader/Follows` says where it can stand, `Reader/Counts` how far it moves,
--   `Reader/Extends` what a longer message changes, `Reader/Cursor` what it reads back. A position
--   plus a length stays below the machine's word, as a length on the wire has 31 bits. On top of it
--   stand `OpcUa/NodeId`, node_id.rs, `OpcUa/Value`, which is datetime.rs, variant.rs and
--   data_value.rs, and `OpcUa/Services`, services.rs. The recursion of `skip_diagnostic_info` is on
--   fuel, one more than the bytes that are left, and `Services/Termination` treats it; the loops
--   over an announced length recurse on that length. `OpcUa/Decoder` is decoder.rs, which pairs
--   responses with requests through the table of `State`; the closure that names the events is a
--   step on a state of the caller's.
-- * `Bronze` is the types of a process reading in src/bronze.rs.
-- * `Stovetop` is src/stovetop, the checks of a raw frame, without state: `Findings`, `Config`,
--   `Integrity` (integrity.rs), `Padding` and `FrameInspector` are the files of those names.
--   `Stovetop/Crc` is the reflected cyclic redundancy check that both checksums are compared with;
--   under `Integrity`, `Checksums` and `Fcs` treat them, `Blocks` and `Frames` the loop over DNP3
--   blocks, whose fuel is the length of the segment; `Padding/Laws` says which bytes are padding.
--   `Prelude/Xor` holds the laws of exclusive or.
-- * `Engine` is the lowest layers of src/engine/mod.rs and src/engine/streaming.rs. `Engine/Link`
--   is the link types and the headers in front of the network layer, `Engine/Capture` the readers
--   of capture files: a reader is the bytes that are left of the file, and its only fault is the
--   end of the file. `Capture/Readers` holds `read_capture_packets` and its steps; the closure
--   that takes the packets is a step on a state of the caller's. Its two loops are on fuel, one
--   more than the bytes of the file, and `Capture/Fuel` treats that; `Capture/Pcap`, `PcapLoop`
--   and `PcapFile` say what a classic file is read as, `Capture/Blocks` and `PcapngFile` what a
--   pcapng file is, and `Capture/Words` is about words in either byte order. The calls of chrono
--   that make a time are parameters.
-- * `Engine/Streaming` is streaming.rs: `Streaming/L4` finds the payload of a packet, in a loop of
--   eight rounds as in the source, `DpiSession` is the session, and the registry that names a
--   payload is a parameter about which nothing is assumed. `Streaming/Flow` is one flow without
--   the table, `Streaming/Runs` and `Settling` are about sequences of packets of many flows.
-- * `Icmpeeker` is src/icmpeeker.rs, a check of one packet without state; the findings that it
--   raises are those of `Stovetop/Findings`, src/stovetop/findings.rs.
--
-- `Format` is the two formatters of src/registry.rs. `HashMap` stands for the standard map: an
-- association list in an iteration order; where the source iterates to a minimum, `min_by_key`
-- takes the first least entry of that order, and the theorems hold for every order. `Prelude`
-- holds the shared names, lists, texts, bytes, the splitting of texts and the clock.
--
-- Numbers are natural numbers; `saturating_add` and the casts keep their bounds, `saturating_sub`
-- is the subtraction that stops at 0. A text is its bytes. Parameters stand for code outside the
-- repository: the hash function of `Dedup` and the generated protobuf decoder of
-- `Sparkplug/Decoder`, about which nothing is assumed, and the clock, an instance of
-- `Prelude.Clock.Clock` whose laws (`IsClock`) are those of a linear time with second
-- differences, at most `max_secs` of them; `Prelude.Ticks` is an instance of both. In `Icmpeeker`
-- and `Stovetop` the floating-point numbers, their order, the entropy of bytes and the hexadecimal
-- printing of bytes are parameters as well. The registry of dissectors in `Engine/Streaming` is the
-- one parameter that stands for code of the repository, which is not modelled.
-- All other recursion is on lists or counted numbers.
--
-- Not modelled: the dissectors and the engine's session decoders, which extract fields; the
-- engine's stream layer above the capture files (the routing of packets, sessions, batching),
-- which drives them; the envelope and the texts of Sparkplug events; the PCCC and the
-- synchrophasor decoders; the outputs, the command line and the bindings.
pub mod Bronze
pub mod Prelude
pub mod HashMap
pub mod Dedup
pub mod Format
pub mod Bilgepump
pub mod Sparkplug
pub mod OpcUa
pub mod Stovetop
pub mod Icmpeeker
pub mod Engine
