-- ===== src/Bilgepump/Arp.antt =====
-- src/bilgepump/detectors/arp.rs: ARP spoofing and flood detection.
pub mod Frame
pub mod Invariant
pub mod Spoof
pub mod Exempt
mod Tests
use Prim.Native.String.{String}
use marlinspike_dpi.Prelude.{
  ℕ, Bool, true, false, Option, none, some, List, [], ◌∷◌, ◌++◌, if◌then◌else◌, eqb, leb, ltb,
  PartialEq, ◌==◌, list_eq, nat_eq, any, map, not, ◌&&◌, ◌||◌, unwrap_or,
}
use marlinspike_dpi.Prelude.Text.{Text, Mac, Ipv4, mac_eq, ipv4_eq}
use marlinspike_dpi.Prelude.Clock.{Clock, before, minus_secs, elapsed_over}
use marlinspike_dpi.HashMap.{Map, lookup, insert, retain}
use marlinspike_dpi.Format.{format_mac, format_ipv4, to_ascii_lowercase}
use marlinspike_dpi.Bilgepump.State.{
  MacIpBinding, RateCounter, record_event, count, empty_counter, BindingSource,
}
use marlinspike_dpi.Bilgepump.Config.{BilgepumpConfig, BlessedBinding}
use marlinspike_dpi.Bilgepump.Alerts.{BilgepumpAlert, AlertKind, AlertSeverity}

pub record ArpFields : Type 0 where
  pub operation : ℕ
  pub sender_mac : Mac
  pub sender_ip : Ipv4
  pub target_mac : Mac
  pub target_ip : Ipv4

pub record ArpDetector (Time : Type 0) : Type 0 where
  pub ip_bindings : Map Ipv4 (MacIpBinding Time)
  pub reply_counters : Map Mac (RateCounter Time)

abbrev pub default_detector : {Time : Type 0} → ArpDetector Time
default_detector = record { ip_bindings = []; reply_counters = [] }

pub eq_ignore_ascii_case : Text → Text → Bool
eq_ignore_ascii_case a b = map to_ascii_lowercase a == map to_ascii_lowercase b

-- Whether the sender's pair is on the configured list.
unfoldable pub is_blessed : BilgepumpConfig → ArpFields → Bool
is_blessed config fields =
    any
      (λ (b : BlessedBinding).
        eq_ignore_ascii_case b.mac (format_mac fields.sender_mac)
        && b.ip == format_ipv4 fields.sender_ip)
      config.blessed_bindings

pub is_reply : ArpFields → Bool
is_reply fields = eqb fields.operation 2

pub is_gratuitous : ArpFields → Bool
is_gratuitous fields = eqb fields.operation 1 && fields.sender_ip == fields.target_ip

pub gratuitous_alerts : ArpFields → List BilgepumpAlert
gratuitous_alerts fields =
    if is_gratuitous fields
    then record {
      kind = AlertKind.arp_gratuitous (format_mac fields.sender_mac) (format_ipv4 fields.sender_ip);
      severity = AlertSeverity.medium;
      decoder = "bilgepump:arp_gratuitous";
    }
      ∷ []
    else []

module _ {Time : Type 0} ⦃clock : Clock Time⦄ where
  -- The counter of the sender, counted up, and the flood alert at the threshold.
  pub count_reply :
      ArpFields
      → BilgepumpConfig
      → Time
      → Map Mac (RateCounter Time)
      → Map Mac (RateCounter Time) × List BilgepumpAlert
  count_reply fields config now counters =
      let r =
        record_event now config.arp_flood_window_secs
          (unwrap_or (lookup fields.sender_mac counters) empty_counter) in
      (
        insert fields.sender_mac r.0 counters,
        if leb config.arp_flood_threshold r.1
            then record {
              kind =
                  AlertKind.arp_flood (format_mac fields.sender_mac) r.1
                    config.arp_flood_window_secs;
              severity = AlertSeverity.high;
              decoder = "bilgepump:arp_flood";
            }
              ∷ []
            else [],
      )

  pub flood_check :
      ArpFields
      → BilgepumpConfig
      → Time
      → Map Mac (RateCounter Time)
      → Map Mac (RateCounter Time) × List BilgepumpAlert
  flood_check fields config now counters =
      if is_reply fields || is_gratuitous fields
      then count_reply fields config now counters
      else (counters, [])

  -- The binding that is there is of another hardware address, is not exempt, and has not expired.
  pub is_spoof : ArpFields → BilgepumpConfig → Time → MacIpBinding Time → Bool
  is_spoof fields config now existing =
      not (existing.mac == fields.sender_mac)
      && not (is_blessed config fields)
      && not existing.is_blessed
      && not (elapsed_over now existing.last_seen config.arp_binding_ttl_secs)

  pub spoof_alert : ArpFields → MacIpBinding Time → BilgepumpAlert
  spoof_alert fields existing = record {
    kind =
        AlertKind.arp_spoof_detected (format_ipv4 fields.sender_ip) (format_mac fields.sender_mac)
          (format_mac existing.mac);
    severity = AlertSeverity.critical;
    decoder = "bilgepump:arp_spoof";
  }

  pub spoof_alerts :
      ArpFields → BilgepumpConfig → Time → Map Ipv4 (MacIpBinding Time) → List BilgepumpAlert
  spoof_alerts fields config now bindings = elim (lookup fields.sender_ip bindings) [
    | none ↦ []
    | some existing ↦
        if is_spoof fields config now existing then spoof_alert fields existing ∷ [] else []
  ]

  -- `entry(..).or_insert_with(..)`, then the two assignments.
  pub updated_binding :
      ArpFields → BilgepumpConfig → Time → Option (MacIpBinding Time) → MacIpBinding Time
  updated_binding fields config now existing =
      let binding : MacIpBinding Time = unwrap_or existing (record {
        mac = fields.sender_mac;
        ip = fields.sender_ip;
        first_seen = now;
        last_seen = now;
        source = if is_blessed config fields then BindingSource.blessed else BindingSource.arp;
        is_blessed = is_blessed config fields;
      }) in
      record binding { mac = fields.sender_mac; last_seen = now }

  pub observe :
      ArpFields → BilgepumpConfig → Time → ArpDetector Time → ArpDetector Time × List BilgepumpAlert
  observe fields config now det =
      if not config.check_arp_spoofing
      then (det, [])
      else let flood = flood_check fields config now det.reply_counters in
        (
          record {
            ip_bindings =
                insert fields.sender_ip
                  (updated_binding fields config now (lookup fields.sender_ip det.ip_bindings))
                  det.ip_bindings;
            reply_counters = flood.0;
          },
          gratuitous_alerts fields ++ (flood.1 ++ spoof_alerts fields config now det.ip_bindings),
        )

  pub evict : Time → ℕ → ArpDetector Time → ArpDetector Time
  evict now ttl_secs det =
      let cutoff = minus_secs now ttl_secs in
      record {
        ip_bindings =
            retain (λ (b : MacIpBinding Time). not (before b.last_seen cutoff)) det.ip_bindings;
        reply_counters = retain (λ c. ltb 0 (count c)) det.reply_counters;
      }

module _ {Time : Type 0} where
  pub record_dhcp_binding : Mac → Ipv4 → Time → ArpDetector Time → ArpDetector Time
  record_dhcp_binding mac ip now det =
      let binding : MacIpBinding Time = unwrap_or (lookup ip det.ip_bindings) (record {
        mac = mac;
        ip = ip;
        first_seen = now;
        last_seen = now;
        source = BindingSource.dhcp;
        is_blessed = false;
      }) in
      record det {
        ip_bindings =
            insert ip (record binding { mac = mac; last_seen = now; source = BindingSource.dhcp })
              det.ip_bindings;
      }
