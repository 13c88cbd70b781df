-- ===== src/Bilgepump/Stp/Laws.antt =====
-- The root detector over a sequence of BPDUs.
use marlinspike_dpi.Prelude.{
  ℕ, suc, ◌≡◌, refl, Bool, true, false, Option, none, some, List, [], ◌∷◌, ◌++◌, not, if◌then◌else◌,
  arith, ◌==◌, length, length-append, keep, keep-append, list_eq, nat_eq,
}
use marlinspike_dpi.Prelude.Text.{Text}
use marlinspike_dpi.Bilgepump.State.{StpRootRecord}
use marlinspike_dpi.Bilgepump.Config.{BilgepumpConfig}
use marlinspike_dpi.Bilgepump.Alerts.{BilgepumpAlert, AlertKind}
use marlinspike_dpi.Bilgepump.Stp.{
  StpDetector, StpFields, observe, whitelist_alerts, change_alerts, root_first_seen,
}

abbrev pub is_change_kind : BilgepumpAlert → Bool
is_change_kind a = elim a.kind [ AlertKind.stp_root_change p n b ↦ true | _ ↦ false ]

-- The number of root-change alerts.
abbrev pub changes : List BilgepumpAlert → ℕ
changes alerts = length (keep is_change_kind alerts)

-- The root that stands, and since when.
abbrev pub Standing : Type 0 → Type 0
Standing Time = Option (Text × Time)

whitelist_alerts-changes :
    (fields : StpFields) (config : BilgepumpConfig) → changes (whitelist_alerts fields config) ≡ 0
unfolding whitelist_alerts
whitelist_alerts-changes fields config = ground arith

module _ {Time : Type 0} where
  unfoldable pub observe_all :
      BilgepumpConfig
      → List (StpFields × Time)
      → StpDetector Time
      → StpDetector Time × List BilgepumpAlert
  observe_all config [] det = (det, [])
  observe_all config ((fields, now) ∷ rest) det =
      let r = observe fields config now det in
      let s = observe_all config rest r.0 in (s.0, r.1 ++ s.1)

  abbrev pub standing : StpDetector Time → Standing Time
  standing det = elim det.current_root [ none ↦ none | some r ↦ some (r.root_id, r.first_seen) ]

  -- Whether a claim differs from the root that stands.
  abbrev pub differs : StpFields → Standing Time → Bool
  differs fields none = false
  differs fields (some (root, since)) = not (root == fields.root_id)

  -- A claim of the standing root keeps its time; any other claim starts anew.
  abbrev pub claim : StpFields → Time → Standing Time → Standing Time
  claim fields now none = some (fields.root_id, now)
  claim fields now (some (root, since)) =
      some (fields.root_id, (if root == fields.root_id then since else now))

  unfoldable pub replay : List (StpFields × Time) → Standing Time → Standing Time × ℕ
  replay [] s = (s, 0)
  replay ((fields, now) ∷ rest) s =
      let r = replay rest (claim fields now s) in (r.0, (if differs fields s then suc r.1 else r.1))

  change_alerts-changes :
      (fields : StpFields) (now : Time) (o : Option (StpRootRecord Time))
      → changes (change_alerts fields o)
        ≡ (if differs fields (standing (record { current_root = o })) then 1 else 0)
  unfolding change_alerts
  change_alerts-changes fields now none = refl
  change_alerts-changes fields now (some r) = ground arith

  observe_lem :
      (fields : StpFields) (config : BilgepumpConfig) (now : Time) (det : StpDetector Time)
      → config.check_stp_manipulation ≡ true
      → (standing (observe fields config now det).0 ≡ claim fields now (standing det))
        × (changes (observe fields config now det).1
            ≡ (if differs fields (standing det) then 1 else 0))
  unfolding observe root_first_seen
  observe_lem fields config now det on = ground (
    arith,
    keep-append is_change_kind (whitelist_alerts fields config)
        (change_alerts fields det.current_root),
    length-append (keep is_change_kind (whitelist_alerts fields config))
        (keep is_change_kind (change_alerts fields det.current_root)),
    whitelist_alerts-changes fields config,
    change_alerts-changes fields now det.current_root,
  )

  -- With the check on, over every sequence of BPDUs the detector holds the last claimed root with
  -- the time at which its unbroken run of claims began, and raises exactly one change alert for each
  -- claim that differs from the one before it.
  pub observe_all-replay :
      (config : BilgepumpConfig) (frames : List (StpFields × Time)) (det : StpDetector Time)
      → config.check_stp_manipulation ≡ true
      → (standing (observe_all config frames det).0 ≡ (replay frames (standing det)).0)
        × (changes (observe_all config frames det).1 ≡ (replay frames (standing det)).1)
  unfolding observe_all replay
  observe_all-replay config [] det on = (refl, refl)
  observe_all-replay config ((fields, now) ∷ rest) det on =
      let r = observe fields config now det in
      let s = observe_all config rest r.0 in
      let (stands, counted) = observe_lem fields config now det on in
      let (stands', counted') = observe_all-replay config rest r.0 on in
      (
        rw (← stands) stands',
        ground (
          arith,
          keep-append is_change_kind r.1 s.1,
          length-append (keep is_change_kind r.1) (keep is_change_kind s.1),
          counted,
          rw stands at counted',
        ),
      )
