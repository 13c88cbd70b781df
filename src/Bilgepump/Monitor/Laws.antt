-- ===== src/Bilgepump/Monitor/Laws.antt =====
-- The monitor as a whole: the master switch, and what DHCP teaches the ARP detector.
use marlinspike_dpi.Prelude.{
  ℕ, ◌≡◌, ◌≢◌, refl, ◌∙◌, true, false, Option, some, List, [], arith, is_some_and,
}
use marlinspike_dpi.Prelude.Text.{Mac, Ipv4, mac_eq, ipv4_eq}
use marlinspike_dpi.Prelude.Clock.{Clock, elapsed_over}
use marlinspike_dpi.HashMap.{lookup}
use marlinspike_dpi.Format.{format_ipv4}
use marlinspike_dpi.Bilgepump.Alerts.{BilgepumpAlert}
use marlinspike_dpi.Bilgepump.Arp
use marlinspike_dpi.Bilgepump.Arp.{
  ArpFields, ArpDetector, is_spoof, is_blessed, record_dhcp_binding,
}
use marlinspike_dpi.Bilgepump.Arp.Frame.{
  raises_spoof, raises_spoof-observe, any-append, is_spoof_kind, lookup-record_dhcp_binding,
  is_spoof-taken,
}
use marlinspike_dpi.Bilgepump.Mac.{observe_ip_association}
use marlinspike_dpi.Bilgepump.Mac.Laws.{observe_ip_association-raises_spoof}
use marlinspike_dpi.Bilgepump.Stp.{StpFields}
use marlinspike_dpi.Bilgepump.Dhcp.{DhcpFields}
use marlinspike_dpi.Bilgepump.Identity.{LldpFields, CdpFields}
use marlinspike_dpi.Bilgepump.Monitor.{
  BilgepumpMonitor, inspect_l2_frame, observe_arp, observe_stp, observe_dhcp, observe_lldp,
  observe_cdp, record_ack,
}
use marlinspike_dpi.Bilgepump.Monitor.ParseIpv4.{IsOctets, parse_ipv4-format_ipv4}

-- An observation that the engine hands to the monitor.
pub data Observation (Time : Type 0) : Type 0 where
  arp : ArpFields → Mac → Option ℕ → Time → Observation Time
  stp : StpFields → Time → Observation Time
  dhcp : DhcpFields → Mac → Time → Observation Time
  lldp : LldpFields → Mac → Time → Observation Time
  cdp : CdpFields → Mac → Time → Observation Time

module _ {Time : Type 0} ⦃clock : Clock Time⦄ where
  unfoldable pub observe :
      Observation Time → BilgepumpMonitor Time → BilgepumpMonitor Time × List BilgepumpAlert
  observe (arp fields src_mac vlan_id now) m = observe_arp fields src_mac vlan_id now m
  observe (stp fields now) m = observe_stp fields now m
  observe (dhcp fields src_mac now) m = observe_dhcp fields src_mac now m
  observe (lldp fields src_mac now) m = observe_lldp fields src_mac now m
  observe (cdp fields src_mac now) m = observe_cdp fields src_mac now m

  -- With the master switch off, no observation changes the monitor or raises an alert, and no raw
  -- frame does either.
  observe_disabled :
      (o : Observation Time) (raw_frame : List ℕ) (src_mac : Mac) (m : BilgepumpMonitor Time)
      → m.config.enabled ≡ false
      → (observe o m ≡ (m, [])) × (inspect_l2_frame raw_frame src_mac m ≡ [])
  unfolding observe observe_arp observe_stp observe_dhcp observe_lldp observe_cdp inspect_l2_frame
  observe_disabled (arp fields mac vlan_id now) raw_frame src_mac m off = ground arith
  observe_disabled (stp fields now) raw_frame src_mac m off = ground arith
  observe_disabled (dhcp fields mac now) raw_frame src_mac m off = ground arith
  observe_disabled (lldp fields mac now) raw_frame src_mac m off = ground arith
  observe_disabled (cdp fields mac now) raw_frame src_mac m off = ground arith

  record_ack-record_dhcp_binding :
      (fields : DhcpFields) (now : Time) (ip : Ipv4) (det : ArpDetector Time)
      → IsOctets ip
      → fields.message_type ≡ some 5
      → fields.yiaddr ≡ some (format_ipv4 ip)
      → record_ack fields now det ≡ record_dhcp_binding fields.client_mac ip now det
  unfolding record_ack
  record_ack-record_dhcp_binding fields now ip det octets ack address =
      rw (ack, address, parse_ipv4-format_ipv4 ip octets) refl

  observe_dhcp_on :
      (fields : DhcpFields) (src_mac : Mac) (now : Time) (m : BilgepumpMonitor Time)
      → m.config.enabled ≡ true
      → ((observe_dhcp fields src_mac now m).0.arp ≡ record_ack fields now m.arp)
        × ((observe_dhcp fields src_mac now m).0.config ≡ m.config)
  unfolding observe_dhcp
  observe_dhcp_on fields src_mac now m on = ground arith

  observe_arp-raises_spoof :
      (fields : ArpFields) (src_mac : Mac) (vlan_id : Option ℕ) (now : Time)
      (m : BilgepumpMonitor Time)
      → m.config.enabled ≡ true
      → raises_spoof (observe_arp fields src_mac vlan_id now m).1
        ≡ raises_spoof (Arp.observe fields m.config now m.arp).1
  unfolding observe_arp
  observe_arp-raises_spoof fields src_mac vlan_id now m on = ground (
    arith,
    any-append is_spoof_kind (Arp.observe fields m.config now m.arp).1
        (observe_ip_association src_mac fields.sender_ip vlan_id m.config now m.mac).1,
    observe_ip_association-raises_spoof src_mac fields.sender_ip vlan_id m.config now m.mac,
  )

  -- With the monitor and its ARP check on: after an Ack that hands an address to a client, an ARP
  -- frame that claims the address for another hardware address raises a spoofing alert, unless the
  -- time limit is over, the pair is on the list of known ones or the address was bound as one.
  pub ack_then_takeover :
      (ack_fields : DhcpFields) (server_mac frame_mac : Mac) (ip : Ipv4) (fields : ArpFields)
      (vlan_id : Option ℕ) (t u : Time) (m : BilgepumpMonitor Time)
      → m.config.enabled ≡ true
      → m.config.check_arp_spoofing ≡ true
      → IsOctets ip
      → ack_fields.message_type ≡ some 5
      → ack_fields.yiaddr ≡ some (format_ipv4 ip)
      → is_some_and (lookup ip m.arp.ip_bindings) (λ b. b.is_blessed) ≡ false
      → fields.sender_ip ≡ ip
      → ack_fields.client_mac ≢ fields.sender_mac
      → is_blessed m.config fields ≡ false
      → elapsed_over u t m.config.arp_binding_ttl_secs ≡ false
      → raises_spoof
          (observe_arp fields frame_mac vlan_id u (observe_dhcp ack_fields server_mac t m).0).1
        ≡ true
  ack_then_takeover ack_fields server_mac frame_mac ip fields vlan_id t u m on check octets ack
        address free same differ unlisted fresh =
      let learnt = record_ack-record_dhcp_binding ack_fields t ip m.arp octets ack address in
      let (b, held, owner, at_t, exempt) =
        lookup-record_dhcp_binding ack_fields.client_mac ip t m.arp free in
      let det = record_dhcp_binding ack_fields.client_mac ip t m.arp in
      let flagged : raises_spoof (Arp.observe fields m.config u det).1 ≡ true =
        raises_spoof-observe fields m.config u det
        ∙ ground (
          arith,
          held,
          is_spoof-taken fields m.config t u b ack_fields.client_mac owner at_t exempt differ
              unlisted fresh,
        ) in
      let m' = (observe_dhcp ack_fields server_mac t m).0 in
      let (arp', config') = observe_dhcp_on ack_fields server_mac t m on in
      observe_arp-raises_spoof fields frame_mac vlan_id u m' (rw config' on)
      ∙ rw (config', arp', learnt) flagged
