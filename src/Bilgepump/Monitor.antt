-- ===== src/Bilgepump/Monitor.antt =====
-- src/bilgepump/monitor.rs: `BilgepumpMonitor`, with every protocol feature compiled in.
pub mod ParseIpv4
pub mod Laws
mod Tests
use marlinspike_dpi.Prelude.Split.{split}
use marlinspike_dpi.Prelude.{
  ◌>>=◌, ℕ, ◌+◌, ◌-◌, ◌*◌, Bool, true, false, Option, none, some, List, [], ◌∷◌, ◌++◌,
  if◌then◌else◌, eqb, leb, ltb, not, ◌&&◌, PartialEq, ◌==◌, option_eq, nat_eq,
}
use marlinspike_dpi.Prelude.Text.{Text, Mac, Ipv4}
use marlinspike_dpi.Prelude.Clock.{Clock}
use marlinspike_dpi.Bilgepump.Config.{BilgepumpConfig}
use marlinspike_dpi.Bilgepump.Alerts.{BilgepumpAlert}
use marlinspike_dpi.Bilgepump.Arp
use marlinspike_dpi.Bilgepump.Arp.{ArpDetector, ArpFields}
use marlinspike_dpi.Bilgepump.Mac as MacModule
use marlinspike_dpi.Bilgepump.Mac.{MacDetector, inspect_mac, observe_ip_association}
use marlinspike_dpi.Bilgepump.Vlan.{inspect_vlan_tags}
use marlinspike_dpi.Bilgepump.Stp
use marlinspike_dpi.Bilgepump.Stp.{StpDetector, StpFields}
use marlinspike_dpi.Bilgepump.Dhcp
use marlinspike_dpi.Bilgepump.Dhcp.{DhcpDetector, DhcpFields}
use marlinspike_dpi.Bilgepump.Identity
use marlinspike_dpi.Bilgepump.Identity.{IdentityDetector, LldpFields, CdpFields}

pub record BilgepumpMonitor (Time : Type 0) : Type 0 where
  pub config : BilgepumpConfig
  pub arp : ArpDetector Time
  pub mac : MacDetector Time
  pub stp : StpDetector Time
  pub dhcp : DhcpDetector Time
  pub identity : IdentityDetector Time

pub new : {Time : Type 0} → BilgepumpConfig → BilgepumpMonitor Time
new config = record {
  config = config;
  arp = Arp.default_detector;
  mac = MacModule.default_detector;
  stp = Stp.default_detector;
  dhcp = Dhcp.default_detector;
  identity = Identity.default_detector;
}

-- The digits of `u8::from_str`, with its overflow check.
pub digits_u8 : ℕ → Text → Option ℕ
digits_u8 acc [] = some acc
digits_u8 acc (c ∷ cs) =
    let value = acc * 10 + (c - b'0') in
    if leb b'0' c && leb c b'9' && ltb value 256 then digits_u8 value cs else none

-- `u8::from_str`: one leading `+` is allowed, and the empty text and a lone `+` are errors.
pub parse_u8 : Text → Option ℕ
parse_u8 [] = none
parse_u8 (c ∷ []) = if eqb c b'+' then none else digits_u8 0 (c ∷ [])
parse_u8 (c ∷ d ∷ cs) = if eqb c b'+' then digits_u8 0 (d ∷ cs) else digits_u8 0 (c ∷ d ∷ cs)

-- The four parts of an address, once there are exactly four.
pub parse_parts : List Text → Option Ipv4
parse_parts (pa ∷ pb ∷ pc ∷ pd ∷ []) = do
  a ← parse_u8 pa
  b ← parse_u8 pb
  c ← parse_u8 pc
  d ← parse_u8 pd
  some (record { o0 = a; o1 = b; o2 = c; o3 = d })
parse_parts _ = none

pub parse_ipv4 : Text → Option Ipv4
parse_ipv4 s = parse_parts (split b'.' s)

module _ {Time : Type 0} ⦃clock : Clock Time⦄ where
  pub inspect_l2_frame : List ℕ → Mac → BilgepumpMonitor Time → List BilgepumpAlert
  inspect_l2_frame raw_frame src_mac m =
      if not m.config.enabled
      then []
      else inspect_vlan_tags raw_frame m.config ++ inspect_mac src_mac m.config

  pub observe_arp :
      ArpFields
      → Mac
      → Option ℕ
      → Time
      → BilgepumpMonitor Time
      → BilgepumpMonitor Time × List BilgepumpAlert
  observe_arp fields src_mac vlan_id now m =
      if not m.config.enabled
      then (m, [])
      else let a = Arp.observe fields m.config now m.arp in
        let f = observe_ip_association src_mac fields.sender_ip vlan_id m.config now m.mac in
        (record m { arp = a.0; mac = f.0 }, a.1 ++ f.1)

  pub observe_stp :
      StpFields → Time → BilgepumpMonitor Time → BilgepumpMonitor Time × List BilgepumpAlert
  observe_stp fields now m =
      if not m.config.enabled
      then (m, [])
      else let s = Stp.observe fields m.config now m.stp in (record m { stp = s.0 }, s.1)

  -- An Ack with a parsable address teaches the ARP detector the binding.
  pub record_ack : DhcpFields → Time → ArpDetector Time → ArpDetector Time
  record_ack fields now det =
      if fields.message_type == some 5
      then elim (fields.yiaddr >>= parse_ipv4) [
        | none ↦ det
        | some ip ↦ Arp.record_dhcp_binding fields.client_mac ip now det
      ]
      else det

  pub observe_dhcp :
      DhcpFields → Mac → Time → BilgepumpMonitor Time → BilgepumpMonitor Time × List BilgepumpAlert
  observe_dhcp fields src_mac now m =
      if not m.config.enabled
      then (m, [])
      else let d = Dhcp.observe fields src_mac m.config now m.dhcp in
        (record m { dhcp = d.0; arp = record_ack fields now m.arp }, d.1)

  pub observe_lldp :
      LldpFields → Mac → Time → BilgepumpMonitor Time → BilgepumpMonitor Time × List BilgepumpAlert
  observe_lldp fields src_mac now m =
      if not m.config.enabled
      then (m, [])
      else let i = Identity.observe_lldp fields src_mac m.config now m.identity in
        (record m { identity = i.0 }, i.1)

  pub observe_cdp :
      CdpFields → Mac → Time → BilgepumpMonitor Time → BilgepumpMonitor Time × List BilgepumpAlert
  observe_cdp fields src_mac now m =
      if not m.config.enabled
      then (m, [])
      else let i = Identity.observe_cdp fields src_mac m.config now m.identity in
        (record m { identity = i.0 }, i.1)

  pub evict_expired : Time → BilgepumpMonitor Time → BilgepumpMonitor Time
  evict_expired now m =
      let ttl = m.config.default_state_ttl_secs in
      record m {
        arp = Arp.evict now ttl m.arp;
        mac = MacModule.evict now ttl m.mac;
        dhcp = Dhcp.evict now ttl m.dhcp;
        identity = Identity.evict now m.config.identity_ttl_secs m.identity;
      }
