-- ===== src/Bilgepump/Dhcp.antt =====
-- src/bilgepump/detectors/dhcp.rs: rogue servers and starvation.
pub mod Laws
use marlinspike_dpi.Prelude.{
  ℕ, ◌+◌, Bool, true, false, Option, none, some, List, [], ◌∷◌, ◌++◌, if◌then◌else◌, eqb, leb,
  PartialEq, ◌==◌, list_eq, nat_eq, not, ◌&&◌, ◌||◌, is_empty, unwrap_or,
}
use marlinspike_dpi.Prelude.Text.{Text, Mac}
use marlinspike_dpi.Prelude.Distinct.{has}
use marlinspike_dpi.Prelude.Clock.{Clock, before, minus_secs}
use marlinspike_dpi.HashMap.{Map, lookup, insert, retain}
use marlinspike_dpi.Format.{format_mac}
use marlinspike_dpi.Bilgepump.State.{DhcpServerRecord, RateCounter, record_event, empty_counter}
use marlinspike_dpi.Bilgepump.Config.{BilgepumpConfig}
use marlinspike_dpi.Bilgepump.Alerts.{BilgepumpAlert, AlertKind, AlertSeverity}

pub record DhcpFields : Type 0 where
  pub op : ℕ
  pub xid : ℕ
  pub client_mac : Mac
  pub ciaddr : Option Text
  pub yiaddr : Option Text
  pub siaddr : Option Text
  pub giaddr : Option Text
  pub message_type : Option ℕ
  pub hostname : Option Text
  pub client_id : Option Text
  pub vendor_class : Option Text
  pub requested_ip : Option Text
  pub server_id : Option Text

pub record DhcpDetector (Time : Type 0) : Type 0 where
  pub servers : Map Text (DhcpServerRecord Time)
  pub request_counter : RateCounter Time

abbrev pub default_detector : {Time : Type 0} → DhcpDetector Time
default_detector = record { servers = []; request_counter = empty_counter }

abbrev pub msg_type : DhcpFields → ℕ
msg_type fields = unwrap_or fields.message_type 0

-- An Offer or an Ack.
abbrev pub is_server_message : DhcpFields → Bool
is_server_message fields = eqb (msg_type fields) 2 || eqb (msg_type fields) 5

-- A Discover or a Request.
abbrev pub is_client_message : DhcpFields → Bool
is_client_message fields = eqb (msg_type fields) 1 || eqb (msg_type fields) 3

pub rogue_alerts : Text → DhcpFields → Mac → BilgepumpConfig → List BilgepumpAlert
rogue_alerts server_id fields src_mac config =
    if not (is_empty config.known_dhcp_servers) && not (has server_id config.known_dhcp_servers)
    then record {
      kind = AlertKind.rogue_dhcp_server server_id (format_mac src_mac) fields.yiaddr;
      severity = AlertSeverity.critical;
      decoder = "bilgepump:dhcp_rogue";
    }
      ∷ []
    else []

module _ {Time : Type 0} where
  -- `entry(..).or_insert_with(..)`, then the two updates.
  pub tracked_server : Text → Mac → Time → Option (DhcpServerRecord Time) → DhcpServerRecord Time
  tracked_server server_id src_mac now existing =
      let r : DhcpServerRecord Time = unwrap_or existing (record {
        server_id = server_id;
        src_mac = src_mac;
        first_seen = now;
        last_seen = now;
        offer_count = 0;
      }) in
      record r { last_seen = now; offer_count = r.offer_count + 1 }

  pub server_step :
      DhcpFields
      → Mac
      → BilgepumpConfig
      → Time
      → Map Text (DhcpServerRecord Time)
      → Option Text
      → Map Text (DhcpServerRecord Time) × List BilgepumpAlert
  server_step fields src_mac config now servers none = (servers, [])
  server_step fields src_mac config now servers (some server_id) = (
    insert server_id (tracked_server server_id src_mac now (lookup server_id servers)) servers,
    rogue_alerts server_id fields src_mac config,
  )

module _ {Time : Type 0} ⦃clock : Clock Time⦄ where
  pub client_step :
      BilgepumpConfig → Time → RateCounter Time → RateCounter Time × List BilgepumpAlert
  client_step config now counter =
      let r = record_event now config.dhcp_starvation_window_secs counter in
      (
        r.0,
        if leb config.dhcp_starvation_threshold r.1
            then record {
              kind = AlertKind.dhcp_starvation r.1 config.dhcp_starvation_window_secs;
              severity = AlertSeverity.high;
              decoder = "bilgepump:dhcp_starvation";
            }
              ∷ []
            else [],
      )

  pub observe :
      DhcpFields
      → Mac
      → BilgepumpConfig
      → Time
      → DhcpDetector Time
      → DhcpDetector Time × List BilgepumpAlert
  observe fields src_mac config now det =
      if not config.check_dhcp_abuse
      then (det, [])
      else let s =
          if is_server_message fields
          then server_step fields src_mac config now det.servers fields.server_id
          else (det.servers, []) in
        let c =
          if is_client_message fields
          then client_step config now det.request_counter
          else (det.request_counter, []) in
        (record { servers = s.0; request_counter = c.0 }, s.1 ++ c.1)

  pub evict : Time → ℕ → DhcpDetector Time → DhcpDetector Time
  evict now ttl_secs det =
      let cutoff = minus_secs now ttl_secs in
      record det {
        servers =
            retain (λ (s : DhcpServerRecord Time). not (before s.last_seen cutoff)) det.servers;
      }
