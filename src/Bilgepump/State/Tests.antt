-- ===== src/Bilgepump/State/Tests.antt =====
-- The source's tests of the windows, and the theorems at concrete inputs.
use marlinspike_dpi.Prelude.{ℕ, ◌≤◌, ◌≡◌, refl, none, [], ◌∷◌, arith}
use marlinspike_dpi.Prelude.Text.{Ipv4}
use marlinspike_dpi.Prelude.Ticks.{ticks, ticks-IsClock}
use marlinspike_dpi.Bilgepump.State.{
  MacObservation, MacFlapTracker, record_event, record_observation, pop_front_while, prune,
  distinct_ips, empty_counter,
}
use marlinspike_dpi.Bilgepump.State.Rate.{counts, counts_spec, counts-counts_spec, record_event_pos}

program : Unit {0}
unfolding record_event record_observation pop_front_while prune distinct_ips counts counts_spec
program = tt

-- `rate_counter_sliding_window`
rate_counter_sliding_window :
    counts {Time = ℕ} 10 (100 ∷ 105 ∷ 111 ∷ []) empty_counter ≡ 1 ∷ 2 ∷ 2 ∷ []
unfolding program
rate_counter_sliding_window = refl

abbrev host : ℕ → Ipv4
host n = record { o0 = 10; o1 = 0; o2 = 0; o3 = n }

abbrev seen_now : MacObservation ℕ
seen_now = record { ip = host 1; vlan_id = none; timestamp = 102 }

abbrev tracked : MacFlapTracker ℕ
tracked = record {
  observations =
      record { ip = host 1; vlan_id = none; timestamp = 100 }
      ∷ record { ip = host 2; vlan_id = none; timestamp = 101 }
      ∷ [];
}

-- `mac_flap_distinct_ips`
mac_flap_distinct_ips : (record_observation {Time = ℕ} (host 1) none 102 30 tracked).1 ≡ 2
unfolding program
mac_flap_distinct_ips = refl

counts-counts_spec_example :
    counts {Time = ℕ} 10 (100 ∷ 105 ∷ 111 ∷ []) empty_counter
    ≡ counts_spec {Time = ℕ} 10 (100 ∷ 105 ∷ 111 ∷ []) []
counts-counts_spec_example =
    counts-counts_spec ticks-IsClock 10 100 (100 ∷ 105 ∷ 111 ∷ []) (refl, (refl, (refl, tt)))

record_event_pos_example : 1 ≤ (record_event {Time = ℕ} 100 10 (record { timestamps = 50 ∷ [] })).1
record_event_pos_example =
    record_event_pos ticks-IsClock 100 10 (record { timestamps = 50 ∷ [] }) (omega arith)
