-- ===== src/Bilgepump/Identity/Laws.antt =====
-- Conflicts over sequences of announcements.
use marlinspike_dpi.Prelude.{
  ◌≡◌, ◌≢◌, ◌∙◌, true, [], ◌∷◌, not, ◌&&◌, if◌then◌else◌, arith, ◌==◌, list_eq, nat_eq, is_empty,
}
use marlinspike_dpi.Prelude.Text.{Text, Mac, mac_eq}
use marlinspike_dpi.HashMap.{lookup}
use marlinspike_dpi.HashMap.Laws.{lookup-insert_self}
use marlinspike_dpi.Format.{format_mac}
use marlinspike_dpi.Bilgepump.Config.{BilgepumpConfig}
use marlinspike_dpi.Bilgepump.Alerts.{BilgepumpAlert, AlertKind, AlertSeverity}
use marlinspike_dpi.Bilgepump.Identity.{
  IdentityDetector, LldpFields, observe_lldp, lldp_alerts, lldp_first_seen,
}

abbrev pub lldp_conflict : Mac → Text → Text → BilgepumpAlert
lldp_conflict src_mac current previous = record {
  kind = AlertKind.lldp_identity_conflict (format_mac src_mac) current previous;
  severity = AlertSeverity.high;
  decoder = "bilgepump:lldp_conflict";
}

module _ {Time : Type 0} (config : BilgepumpConfig) (src_mac : Mac) where
  -- With the check on, two announcements in a row from one address raise a conflict exactly when
  -- the second chassis identifier is not empty and differs from the first, and the one alert names
  -- both identifiers, whatever was known before.
  observe_lldp_after :
      (first second : LldpFields) (t u : Time) (det : IdentityDetector Time)
      → config.check_identity_conflicts ≡ true
      → (observe_lldp second src_mac config u (observe_lldp first src_mac config t det).0).1 ≡ (
          if not (first.chassis_id == second.chassis_id) && not (is_empty second.chassis_id)
          then lldp_conflict src_mac second.chassis_id first.chassis_id ∷ []
          else [])
  unfolding observe_lldp lldp_alerts
  observe_lldp_after first second t u det on = ground (
    arith,
    lookup-insert_self src_mac
        (record {
          chassis_id = first.chassis_id;
          system_name = first.system_name;
          src_mac = src_mac;
          first_seen = lldp_first_seen t (lookup src_mac det.lldp);
          last_seen = t;
        })
        det.lldp,
  )

  -- With the check on, an announcement with an empty identifier between two that carry the same
  -- identifier is not reported itself, but erases what was known: the third announcement is
  -- reported as a conflict with the empty identifier.
  pub observe_lldp_conflict :
      (first second third : LldpFields) (t u v : Time) (det : IdentityDetector Time)
      → config.check_identity_conflicts ≡ true
      → second.chassis_id ≡ []
      → third.chassis_id ≡ first.chassis_id
      → first.chassis_id ≢ []
      → (let d1 = (observe_lldp first src_mac config t det).0 in
          let r2 = observe_lldp second src_mac config u d1 in
          (r2.1 ≡ [])
          × ((observe_lldp third src_mac config v r2.0).1
              ≡ lldp_conflict src_mac first.chassis_id [] ∷ []))
  observe_lldp_conflict first second third t u v det on empty same named =
      let d1 = (observe_lldp first src_mac config t det).0 in
      (
        observe_lldp_after first second t u det on ∙ ground arith,
        observe_lldp_after second third u v d1 on ∙ ground arith,
      )
