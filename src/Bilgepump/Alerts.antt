-- ===== src/Bilgepump/Alerts.antt =====
-- src/bilgepump/alerts.rs: the findings of the monitor. Their printed reasons are not modelled.
use Prim.Native.String.{String}
use marlinspike_dpi.Prelude.{ℕ, Option}
use marlinspike_dpi.Prelude.Text.{Text}

pub data AlertSeverity : Type 0 where
  low medium high critical : AlertSeverity

pub data AlertKind : Type 0 where
  arp_spoof_detected : (claimed_ip new_mac previous_mac : Text) → AlertKind
  arp_gratuitous : (sender_mac sender_ip : Text) → AlertKind
  arp_flood : (source_mac : Text) (count window_secs : ℕ) → AlertKind
  mac_locally_administered : (mac : Text) → AlertKind
  mac_multicast_source : (mac : Text) → AlertKind
  mac_flapping : (mac : Text) (distinct_ips window_secs : ℕ) → AlertKind
  vlan_hopping : (outer_vlan inner_vlan : ℕ) → AlertKind
  stp_root_change : (previous_root new_root claiming_bridge : Text) → AlertKind
  stp_unauthorized_root : (bridge_id claimed_root : Text) → AlertKind
  rogue_dhcp_server : (server_id server_mac : Text) (offered_ip : Option Text) → AlertKind
  dhcp_starvation : (request_count window_secs : ℕ) → AlertKind
  lldp_identity_conflict : (src_mac current_chassis_id previous_chassis_id : Text) → AlertKind
  cdp_identity_conflict : (src_mac current_device_id previous_device_id : Text) → AlertKind

pub record BilgepumpAlert : Type 0 where
  pub kind : AlertKind
  pub severity : AlertSeverity
  pub decoder : String
