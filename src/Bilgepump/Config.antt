-- ===== src/Bilgepump/Config.antt =====
-- src/bilgepump/config.rs: which checks run, and their thresholds.
use marlinspike_dpi.Prelude.{ℕ, Bool, true, Option, List, []}
use marlinspike_dpi.Prelude.Text.{Text}

pub record BlessedBinding : Type 0 where
  pub mac : Text
  pub ip : Text
  pub description : Option Text

pub record BilgepumpConfig : Type 0 where
  pub enabled : Bool
  pub check_arp_spoofing : Bool
  pub arp_binding_ttl_secs : ℕ
  pub arp_flood_threshold : ℕ
  pub arp_flood_window_secs : ℕ
  pub blessed_bindings : List BlessedBinding
  pub check_mac_anomalies : Bool
  pub mac_flap_threshold : ℕ
  pub mac_flap_window_secs : ℕ
  pub check_vlan_hopping : Bool
  pub check_stp_manipulation : Bool
  pub stp_root_whitelist : List Text
  pub check_dhcp_abuse : Bool
  pub known_dhcp_servers : List Text
  pub dhcp_starvation_threshold : ℕ
  pub dhcp_starvation_window_secs : ℕ
  pub check_identity_conflicts : Bool
  pub identity_ttl_secs : ℕ
  pub default_state_ttl_secs : ℕ

abbrev pub default_config : BilgepumpConfig
default_config = record {
  enabled = true;
  check_arp_spoofing = true;
  arp_binding_ttl_secs = 300;
  arp_flood_threshold = 50;
  arp_flood_window_secs = 10;
  blessed_bindings = [];
  check_mac_anomalies = true;
  mac_flap_threshold = 5;
  mac_flap_window_secs = 30;
  check_vlan_hopping = true;
  check_stp_manipulation = true;
  stp_root_whitelist = [];
  check_dhcp_abuse = true;
  known_dhcp_servers = [];
  dhcp_starvation_threshold = 100;
  dhcp_starvation_window_secs = 30;
  check_identity_conflicts = true;
  identity_ttl_secs = 600;
  default_state_ttl_secs = 600;
}
