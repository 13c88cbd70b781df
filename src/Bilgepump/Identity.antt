-- ===== src/Bilgepump/Identity.antt =====
-- src/bilgepump/detectors/identity.rs: conflicting LLDP and CDP identities.
pub mod Laws
use marlinspike_dpi.Prelude.{
  ℕ, Bool, true, false, Option, none, some, List, [], ◌∷◌, if◌then◌else◌, PartialEq, ◌==◌, list_eq,
  nat_eq, not, ◌&&◌, is_empty,
}
use marlinspike_dpi.Prelude.Text.{Text, Mac, mac_eq}
use marlinspike_dpi.Prelude.Clock.{Clock, before, minus_secs}
use marlinspike_dpi.HashMap.{Map, lookup, insert, retain}
use marlinspike_dpi.Format.{format_mac}
use marlinspike_dpi.Bilgepump.State.{LldpIdentityRecord, CdpIdentityRecord}
use marlinspike_dpi.Bilgepump.Config.{BilgepumpConfig}
use marlinspike_dpi.Bilgepump.Alerts.{BilgepumpAlert, AlertKind, AlertSeverity}

pub record LldpFields : Type 0 where
  pub chassis_id : Text
  pub port_id : Text
  pub ttl : ℕ
  pub system_name : Text
  pub system_description : Text
  pub capabilities : List Text

pub record CdpFields : Type 0 where
  pub version : ℕ
  pub ttl : ℕ
  pub checksum : ℕ
  pub device_id : Text
  pub port_id : Text
  pub platform : Option Text
  pub software_version : Option Text
  pub capabilities : List Text
  pub native_vlan : Option ℕ
  pub duplex : Option Text
  pub management_addresses : List Text

pub record IdentityDetector (Time : Type 0) : Type 0 where
  pub lldp : Map Mac (LldpIdentityRecord Time)
  pub cdp : Map Mac (CdpIdentityRecord Time)

abbrev pub default_detector : {Time : Type 0} → IdentityDetector Time
default_detector = record { lldp = []; cdp = [] }

module _ {Time : Type 0} where
  pub lldp_alerts : LldpFields → Mac → Option (LldpIdentityRecord Time) → List BilgepumpAlert
  lldp_alerts fields src_mac none = []
  lldp_alerts fields src_mac (some existing) =
      if not (existing.chassis_id == fields.chassis_id) && not (is_empty fields.chassis_id)
      then record {
        kind =
            AlertKind.lldp_identity_conflict (format_mac src_mac) fields.chassis_id
              existing.chassis_id;
        severity = AlertSeverity.high;
        decoder = "bilgepump:lldp_conflict";
      }
        ∷ []
      else []

  -- `self.lldp.get(src_mac).map(|r| r.first_seen).unwrap_or(now)`
  pub lldp_first_seen : Time → Option (LldpIdentityRecord Time) → Time
  lldp_first_seen now none = now
  lldp_first_seen now (some r) = r.first_seen

  pub observe_lldp :
      LldpFields
      → Mac
      → BilgepumpConfig
      → Time
      → IdentityDetector Time
      → IdentityDetector Time × List BilgepumpAlert
  observe_lldp fields src_mac config now det =
      if not config.check_identity_conflicts then (det, []) else (
        record det {
          lldp =
              insert src_mac
                (record {
                  chassis_id = fields.chassis_id;
                  system_name = fields.system_name;
                  src_mac = src_mac;
                  first_seen = lldp_first_seen now (lookup src_mac det.lldp);
                  last_seen = now;
                })
                det.lldp;
        },
        lldp_alerts fields src_mac (lookup src_mac det.lldp),
      )

  pub cdp_alerts : CdpFields → Mac → Option (CdpIdentityRecord Time) → List BilgepumpAlert
  cdp_alerts fields src_mac none = []
  cdp_alerts fields src_mac (some existing) =
      if not (existing.device_id == fields.device_id) && not (is_empty fields.device_id)
      then record {
        kind =
            AlertKind.cdp_identity_conflict (format_mac src_mac) fields.device_id
              existing.device_id;
        severity = AlertSeverity.high;
        decoder = "bilgepump:cdp_conflict";
      }
        ∷ []
      else []

  pub cdp_first_seen : Time → Option (CdpIdentityRecord Time) → Time
  cdp_first_seen now none = now
  cdp_first_seen now (some r) = r.first_seen

  pub observe_cdp :
      CdpFields
      → Mac
      → BilgepumpConfig
      → Time
      → IdentityDetector Time
      → IdentityDetector Time × List BilgepumpAlert
  observe_cdp fields src_mac config now det =
      if not config.check_identity_conflicts then (det, []) else (
        record det {
          cdp =
              insert src_mac
                (record {
                  device_id = fields.device_id;
                  platform = fields.platform;
                  src_mac = src_mac;
                  first_seen = cdp_first_seen now (lookup src_mac det.cdp);
                  last_seen = now;
                })
                det.cdp;
        },
        cdp_alerts fields src_mac (lookup src_mac det.cdp),
      )

module _ {Time : Type 0} ⦃clock : Clock Time⦄ where
  pub evict : Time → ℕ → IdentityDetector Time → IdentityDetector Time
  evict now ttl_secs det =
      let cutoff = minus_secs now ttl_secs in
      record {
        lldp = retain (λ (r : LldpIdentityRecord Time). not (before r.last_seen cutoff)) det.lldp;
        cdp = retain (λ (r : CdpIdentityRecord Time). not (before r.last_seen cutoff)) det.cdp;
      }
