-- ===== src/Engine/Streaming/Tests.antt =====
-- Runs of the streaming session on small packets, and its properties at concrete inputs.
use marlinspike_dpi.Prelude.{
  ℕ, zero, suc, ◌≡◌, ◌≢◌, refl, Option, none, some, List, [], ◌∷◌, ◌++◌, arith, leb, length,
  if◌then◌else◌, nat_eq,
}
use marlinspike_dpi.HashMap.{lookup, insert, remove, min_by_key, remove_oldest}
use marlinspike_dpi.Engine.Streaming.{
  need_more, classified, DpiSession, DpiSessionConfig, with_config, flow_count, evict_lru, write,
  make_room, touch_flow, attempt, feed,
}
use marlinspike_dpi.Engine.Streaming.L4.{
  parse_l4_ports, extract_l4_payload_v4, walk_extensions, extract_l4_payload_v6, extract_l4_payload,
}
use marlinspike_dpi.Engine.Streaming.Flow.{alone, alone_run}
use marlinspike_dpi.Engine.Streaming.Runs.{packets_of, after, feed-after}
use marlinspike_dpi.Engine.Streaming.Settling.{feed_settled}

program : Unit {0}
unfolding lookup insert remove min_by_key remove_oldest with_config flow_count evict_lru write
    make_room touch_flow attempt feed parse_l4_ports extract_l4_payload_v4 walk_extensions
    extract_l4_payload_v6 extract_l4_payload alone alone_run packets_of after
program = tt

-- A registry that knows one protocol, by its port and a payload of seven bytes or more.
abbrev registry : List ℕ → ℕ → ℕ → Option ℕ
registry payload src_port dst_port = if leb 7 (length payload) then some dst_port else none

abbrev zeros : ℕ → List ℕ
zeros zero = []
zeros (suc n) = 0 ∷ zeros n

-- IPv4 and TCP with headers of twenty bytes, to port 502.
abbrev tcp_packet : List ℕ → List ℕ
tcp_packet payload =
    0x45
    ∷ (zeros 8
        ++ (6 ∷ (zeros 10 ++ (0xC0 ∷ 0 ∷ 1 ∷ 0xF6 ∷ (zeros 8 ++ (0x50 ∷ (zeros 7 ++ payload)))))))

abbrev small : DpiSessionConfig
small = record { max_classify_attempts = 2; max_flows = 4 }

abbrev start : DpiSession ℕ ℕ
start = with_config small

-- `classified_flow_short_circuits_on_subsequent_packets`
classified_at_once : (feed registry 1 (tcp_packet (zeros 8)) start).0 ≡ classified 502
unfolding program
classified_at_once = refl

classified_again :
    (feed registry 1 [] (feed registry 1 (tcp_packet (zeros 8)) start).1).0 ≡ classified 502
unfolding program
classified_again = refl

-- `unparseable_packet_returns_need_more`
unparseable : (feed registry 1 [] start).0 ≡ need_more
unfolding program
unparseable = refl

-- Behind a hop-by-hop header the payload of a UDP packet is found as well.
behind_extension :
    (feed registry 1 (0x60 ∷ (zeros 39 ++ (17 ∷ (zeros 7 ++ (0 ∷ 1 ∷ 0 ∷ 53 ∷ zeros 12))))) start).0
    ≡ classified 53
unfolding program
behind_extension = refl

-- With places for one flow, the older flow is forgotten.
one_place :
    flow_count {FlowKey = ℕ}
      (after registry ((1, []) ∷ (2, []) ∷ []) (with_config (record small { max_flows = 1 })))
    ≡ 1
unfolding program
one_place = refl

abbrev calls : List (ℕ × List ℕ)
calls = (1, []) ∷ (2, tcp_packet (zeros 8)) ∷ (1, tcp_packet []) ∷ []

feed-after_example :
    (feed registry 1 (tcp_packet (zeros 8)) (after registry calls (with_config small))).0
    ≡ (alone registry 2 (tcp_packet (zeros 8)) (alone_run registry 2 (packets_of 1 calls) none)).0
feed-after_example = feed-after registry small calls 1 (tcp_packet (zeros 8)) (omega arith)

two_packets : length (packets_of 1 calls) ≡ 2
unfolding program
two_packets = refl

feed_settled_example :
    (feed registry 1 (tcp_packet (zeros 8)) (after registry calls (with_config small))).0
    ≢ need_more
feed_settled_example =
    feed_settled registry small calls 1 (tcp_packet (zeros 8)) (omega arith) (omega arith)
      (omega (arith, two_packets)) (omega (arith, two_packets))
