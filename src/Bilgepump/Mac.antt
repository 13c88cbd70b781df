-- ===== src/Bilgepump/Mac.antt =====
-- src/bilgepump/detectors/mac.rs: source addresses that should not be, and flapping.
pub mod Laws
use Prim.Native.Nat.{bit_and}
use marlinspike_dpi.Prelude.{
  ℕ, Bool, true, false, Option, none, some, List, [], ◌∷◌, ◌++◌, if◌then◌else◌, eqb, leb, PartialEq,
  ◌==◌, not, ◌&&◌, unwrap_or,
}
use marlinspike_dpi.Prelude.Text.{Mac, Ipv4, mac_eq}
use marlinspike_dpi.Prelude.Clock.{Clock, elapsed_under}
use marlinspike_dpi.HashMap.{Map, lookup, insert, retain}
use marlinspike_dpi.Format.{format_mac}
use marlinspike_dpi.Bilgepump.State.{
  MacFlapTracker, MacObservation, record_observation, empty_tracker,
}
use marlinspike_dpi.Bilgepump.Config.{BilgepumpConfig}
use marlinspike_dpi.Bilgepump.Alerts.{BilgepumpAlert, AlertKind, AlertSeverity}

pub record MacDetector (Time : Type 0) : Type 0 where
  pub flap_trackers : Map Mac (MacFlapTracker Time)

abbrev pub default_detector : {Time : Type 0} → MacDetector Time
default_detector = record { flap_trackers = [] }

abbrev pub filled : ℕ → Mac
filled b = record { o0 = b; o1 = b; o2 = b; o3 = b; o4 = b; o5 = b }

pub inspect_mac : Mac → BilgepumpConfig → List BilgepumpAlert
inspect_mac src_mac config =
    if not config.check_mac_anomalies
    then []
    else ((if not (eqb (bit_and src_mac.o0 0x02) 0) && not (src_mac == filled 0)
          then record {
            kind = AlertKind.mac_locally_administered (format_mac src_mac);
            severity = AlertSeverity.low;
            decoder = "bilgepump:mac_local";
          }
            ∷ []
          else [])
        ++ (if not (eqb (bit_and src_mac.o0 0x01) 0) && not (src_mac == filled 0xFF)
            then record {
              kind = AlertKind.mac_multicast_source (format_mac src_mac);
              severity = AlertSeverity.high;
              decoder = "bilgepump:mac_multicast";
            }
              ∷ []
            else []))

-- The last element: `q.back()`.
pub back {ℓ} : {A : Type ℓ} → List A → Option A
back [] = none
back (x ∷ []) = some x
back (x ∷ y ∷ xs) = back (y ∷ xs)

module _ {Time : Type 0} ⦃clock : Clock Time⦄ where
  pub observe_ip_association :
      Mac
      → Ipv4
      → Option ℕ
      → BilgepumpConfig
      → Time
      → MacDetector Time
      → MacDetector Time × List BilgepumpAlert
  observe_ip_association mac ip vlan_id config now det =
      if not config.check_mac_anomalies
      then (det, [])
      else let r =
          record_observation ip vlan_id now config.mac_flap_window_secs
            (unwrap_or (lookup mac det.flap_trackers) empty_tracker) in
        (
          record { flap_trackers = insert mac r.0 det.flap_trackers },
          if leb config.mac_flap_threshold r.1
              then record {
                kind = AlertKind.mac_flapping (format_mac mac) r.1 config.mac_flap_window_secs;
                severity = AlertSeverity.high;
                decoder = "bilgepump:mac_flap";
              }
                ∷ []
              else [],
        )

  -- Whether the newest observation is younger than the limit.
  pub is_recent : Time → ℕ → MacFlapTracker Time → Bool
  is_recent now ttl_secs t = elim (back t.observations) [
    | none ↦ false
    | some o ↦ elapsed_under now o.timestamp ttl_secs
  ]

  pub evict : Time → ℕ → MacDetector Time → MacDetector Time
  evict now ttl_secs det = record {
    flap_trackers = retain (is_recent now ttl_secs) det.flap_trackers;
  }
