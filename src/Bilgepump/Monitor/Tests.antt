-- ===== src/Bilgepump/Monitor/Tests.antt =====
-- The theorems on the other detectors and on the monitor, at concrete inputs.
use marlinspike_dpi.Prelude.{
  ℕ, ◌≡◌, refl, ap, true, false, none, some, List, [], ◌∷◌, arith, list_eq, nat_eq, filter_option,
}
use marlinspike_dpi.Prelude.Text.{Text, Mac, Ipv4, codes, mac_eq}
use marlinspike_dpi.Prelude.Ticks.{ticks}
use marlinspike_dpi.HashMap.{lookup}
use marlinspike_dpi.Format.{format_ipv4, decimal}
use marlinspike_dpi.Prelude.Split.{split_from}
use marlinspike_dpi.Bilgepump.Config.{default_config}
use marlinspike_dpi.Bilgepump.Arp.{ArpFields, is_blessed}
use marlinspike_dpi.Bilgepump.Arp.Frame.{raises_spoof}
use marlinspike_dpi.Bilgepump.Mac.{evict, is_recent}
use marlinspike_dpi.Bilgepump.Mac.Laws.{lookup-evict}
use marlinspike_dpi.Bilgepump.Vlan.Laws.{Header, Word}
use marlinspike_dpi.Bilgepump.Stp
use marlinspike_dpi.Bilgepump.Stp.{StpFields}
use marlinspike_dpi.Bilgepump.Stp.Laws as StpLaws
use marlinspike_dpi.Bilgepump.Stp.Laws.{standing, replay, changes, observe_all-replay}
use marlinspike_dpi.Bilgepump.Dhcp.{DhcpFields}
use marlinspike_dpi.Bilgepump.Dhcp.Laws.{Message}
use marlinspike_dpi.Bilgepump.Identity
use marlinspike_dpi.Bilgepump.Identity.{LldpFields, observe_lldp}
use marlinspike_dpi.Bilgepump.Identity.Laws.{lldp_conflict, observe_lldp_conflict}
use marlinspike_dpi.Bilgepump.Monitor.{
  BilgepumpMonitor, new, observe_arp, observe_dhcp, parse_ipv4, parse_parts, parse_u8, digits_u8,
}
use marlinspike_dpi.Bilgepump.Monitor.ParseIpv4.{IsOctets}
use marlinspike_dpi.Bilgepump.Monitor.Laws.{ack_then_takeover}

abbrev station : ℕ → Mac
station n = record { o0 = 0; o1 = 0x11; o2 = 0x22; o3 = 0x33; o4 = 0x44; o5 = n }

abbrev host : ℕ → Ipv4
host n = record { o0 = 10; o1 = 0; o2 = 0; o3 = n }

-- `parse_ipv4_valid` and `parse_ipv4_invalid`, and what `u8::from_str` also takes
parse_ipv4_cases :
    (parse_ipv4 (codes "10.0.0.1") ≡ some (host 1))
    × (parse_ipv4 (codes "not.an.ip") ≡ none)
    × (parse_ipv4 (codes "10.0.0") ≡ none)
    × (parse_ipv4 (codes "256.0.0.1") ≡ none)
    × (parse_ipv4 (codes "+10.0.00.1") ≡ some (host 1))
unfolding parse_ipv4 parse_parts split_from parse_u8 digits_u8
parse_ipv4_cases = (refl, refl, refl, refl, refl)

host-IsOctets : IsOctets (host 1)
host-IsOctets = omega arith

lookup-evict_example :
    lookup (station 1) (evict {Time = ℕ} 100 10 (record { flap_trackers = [] })).flap_trackers
    ≡ filter_option (is_recent 100 10) (lookup (station 1) [])
lookup-evict_example = lookup-evict 100 10 (station 1) (record { flap_trackers = [] }) tt

abbrev header : Header
header = record {
  d0 = 1;
  d1 = 2;
  d2 = 3;
  d3 = 4;
  d4 = 5;
  d5 = 6;
  s0 = 7;
  s1 = 8;
  s2 = 9;
  s3 = 10;
  s4 = 11;
  s5 = 12;
}

abbrev tag_type : Word
tag_type = record { hi = 0x81; lo = 0x00 }

abbrev tag : ℕ → Word
tag n = record { hi = 0x20; lo = n }

abbrev bpdu : Text → StpFields
bpdu root = record {
  protocol_version = 0;
  bpdu_type = 0;
  flags = 0;
  root_id = root;
  root_path_cost = 4;
  bridge_id = codes "b";
  port_id = 1;
  hello_time = 2;
  max_age = 20;
  forward_delay = 15;
}

abbrev bpdus : List (StpFields × ℕ)
bpdus = (bpdu (codes "r1"), 1) ∷ (bpdu (codes "r1"), 2) ∷ (bpdu (codes "r2"), 3) ∷ []

observe_all-replay_example :
    (standing (StpLaws.observe_all default_config bpdus Stp.default_detector).0
      ≡ (replay bpdus none).0)
    × (changes (StpLaws.observe_all default_config bpdus Stp.default_detector).1
        ≡ (replay bpdus none).1)
observe_all-replay_example = observe_all-replay default_config bpdus Stp.default_detector refl

abbrev ack : DhcpFields
ack = record {
  op = 2;
  xid = 7;
  client_mac = station 1;
  ciaddr = none;
  yiaddr = some (codes "10.0.0.1");
  siaddr = none;
  giaddr = none;
  message_type = some 5;
  hostname = none;
  client_id = none;
  vendor_class = none;
  requested_ip = none;
  server_id = some (codes "10.0.0.254");
}

abbrev messages : List (Message ℕ)
messages = record { fields = ack; src_mac = station 9; now = 5 } ∷ []

abbrev announcement : Text → LldpFields
announcement chassis = record {
  chassis_id = chassis;
  port_id = codes "p";
  ttl = 120;
  system_name = codes "sw";
  system_description = codes "";
  capabilities = [];
}

observe_lldp_conflict_example :
    (let d1 =
        (observe_lldp
          (announcement (codes "x"))
          (station 1)
          default_config
          1
          (Identity.default_detector {Time = ℕ})).0 in
      let r2 = observe_lldp (announcement []) (station 1) default_config 2 d1 in
      (r2.1 ≡ [])
      × ((observe_lldp (announcement (codes "x")) (station 1) default_config 3 r2.0).1
          ≡ lldp_conflict (station 1) (codes "x") [] ∷ []))
observe_lldp_conflict_example =
    observe_lldp_conflict default_config (station 1) (announcement (codes "x")) (announcement [])
      (announcement (codes "x")) 1 2 3 Identity.default_detector refl refl refl (λ e. cc)

abbrev off : BilgepumpMonitor ℕ
off = new (record default_config { enabled = false })

abbrev claim_by : Mac → ArpFields
claim_by mac = record {
  operation = 2;
  sender_mac = mac;
  sender_ip = host 1;
  target_mac = station 9;
  target_ip = host 254;
}

ack_then_takeover_example :
    raises_spoof
      (observe_arp
        (claim_by (station 2))
        (station 2)
        none
        60
        (observe_dhcp ack (station 9) 5 (new {Time = ℕ} default_config)).0).1
    ≡ true
unfolding new lookup is_blessed format_ipv4 decimal
ack_then_takeover_example =
    ack_then_takeover ack (station 9) (station 2) (host 1) (claim_by (station 2)) none 5 60
      (new default_config) refl refl host-IsOctets refl refl refl refl
      (λ e. omega (arith, ap (λ (m : Mac). m.o5) e)) refl refl
