-- ===== src/Bilgepump/Stp.antt =====
-- src/bilgepump/detectors/stp.rs: changes of the spanning tree's root.
pub mod Laws
use marlinspike_dpi.Prelude.{
  ℕ, Bool, true, false, Option, none, some, List, [], ◌∷◌, ◌++◌, if◌then◌else◌, PartialEq, ◌==◌,
  list_eq, nat_eq, not, ◌&&◌, any, is_empty,
}
use marlinspike_dpi.Prelude.Text.{Text}
use marlinspike_dpi.Prelude.Distinct.{has}
use marlinspike_dpi.Bilgepump.State.{StpRootRecord}
use marlinspike_dpi.Bilgepump.Config.{BilgepumpConfig}
use marlinspike_dpi.Bilgepump.Alerts.{BilgepumpAlert, AlertKind, AlertSeverity}

pub record StpFields : Type 0 where
  pub protocol_version : ℕ
  pub bpdu_type : ℕ
  pub flags : ℕ
  pub root_id : Text
  pub root_path_cost : ℕ
  pub bridge_id : Text
  pub port_id : ℕ
  pub hello_time : ℕ
  pub max_age : ℕ
  pub forward_delay : ℕ

pub record StpDetector (Time : Type 0) : Type 0 where
  pub current_root : Option (StpRootRecord Time)

abbrev pub default_detector : {Time : Type 0} → StpDetector Time
default_detector = record { current_root = none }

pub whitelist_alerts : StpFields → BilgepumpConfig → List BilgepumpAlert
whitelist_alerts fields config =
    if not (is_empty config.stp_root_whitelist)
      && not (has fields.root_id config.stp_root_whitelist)
    then record {
      kind = AlertKind.stp_unauthorized_root fields.bridge_id fields.root_id;
      severity = AlertSeverity.high;
      decoder = "bilgepump:stp_unauthorized";
    }
      ∷ []
    else []

module _ {Time : Type 0} where
  pub change_alerts : StpFields → Option (StpRootRecord Time) → List BilgepumpAlert
  change_alerts fields none = []
  change_alerts fields (some current) =
      if not (current.root_id == fields.root_id)
      then record {
        kind = AlertKind.stp_root_change current.root_id fields.root_id fields.bridge_id;
        severity = AlertSeverity.high;
        decoder = "bilgepump:stp_root_change";
      }
        ∷ []
      else []

  -- The first-seen time of the root that is now current.
  pub root_first_seen : StpFields → Time → Option (StpRootRecord Time) → Time
  root_first_seen fields now none = now
  root_first_seen fields now (some r) = if r.root_id == fields.root_id then r.first_seen else now

  pub observe :
      StpFields → BilgepumpConfig → Time → StpDetector Time → StpDetector Time × List BilgepumpAlert
  observe fields config now det = if not config.check_stp_manipulation then (det, []) else (
    record {
      current_root = some (record {
        root_id = fields.root_id;
        claiming_bridge = fields.bridge_id;
        first_seen = root_first_seen fields now det.current_root;
        last_seen = now;
        root_path_cost = fields.root_path_cost;
      });
    },
    whitelist_alerts fields config ++ change_alerts fields det.current_root,
  )
