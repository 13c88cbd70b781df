-- ===== src/Bilgepump/State.antt =====
-- src/bilgepump/state.rs: the state tables and the two sliding windows.
pub mod Prune
pub mod Rate
pub mod Flap
mod Tests
use marlinspike_dpi.Prelude.{
  ℕ, zero, suc, ◌+◌, Bool, true, false, Option, none, some, List, [], ◌∷◌, ◌++◌, if◌then◌else◌,
  PartialEq, ◌==◌, length, any, not, ◌||◌,
}
use marlinspike_dpi.Prelude.Text.{Text, Mac, Ipv4, mac_eq, ipv4_eq}
use marlinspike_dpi.Prelude.Clock.{Clock, before, minus_secs}

pub data BindingSource : Type 0 where
  arp dhcp blessed : BindingSource

pub record MacIpBinding (Time : Type 0) : Type 0 where
  pub mac : Mac
  pub ip : Ipv4
  pub first_seen : Time
  pub last_seen : Time
  pub source : BindingSource
  pub is_blessed : Bool

pub record StpRootRecord (Time : Type 0) : Type 0 where
  pub root_id : Text
  pub claiming_bridge : Text
  pub first_seen : Time
  pub last_seen : Time
  pub root_path_cost : ℕ

pub record DhcpServerRecord (Time : Type 0) : Type 0 where
  pub server_id : Text
  pub src_mac : Mac
  pub first_seen : Time
  pub last_seen : Time
  pub offer_count : ℕ

pub record LldpIdentityRecord (Time : Type 0) : Type 0 where
  pub chassis_id : Text
  pub system_name : Text
  pub src_mac : Mac
  pub first_seen : Time
  pub last_seen : Time

pub record CdpIdentityRecord (Time : Type 0) : Type 0 where
  pub device_id : Text
  pub platform : Option Text
  pub src_mac : Mac
  pub first_seen : Time
  pub last_seen : Time

pub record RateCounter (Time : Type 0) : Type 0 where
  pub timestamps : List Time

pub record MacObservation (Time : Type 0) : Type 0 where
  pub ip : Ipv4
  pub vlan_id : Option ℕ
  pub timestamp : Time

pub record MacFlapTracker (Time : Type 0) : Type 0 where
  pub observations : List (MacObservation Time)

-- `while q.front().is_some_and(p) { q.pop_front(); }`
unfoldable pub pop_front_while {ℓ} : {A : Type ℓ} → (A → Bool) → List A → List A
pop_front_while p [] = []
pop_front_while p (x ∷ xs) = if p x then pop_front_while p xs else x ∷ xs

abbrev pub count : {Time : Type 0} → RateCounter Time → ℕ
count c = length c.timestamps

-- The distinct addresses of the observations, in order of appearance: the loop over `seen`.
unfoldable pub distinct_ips : {Time : Type 0} → List (MacObservation Time) → List Ipv4 → List Ipv4
distinct_ips [] seen = seen
distinct_ips (obs ∷ rest) seen =
    distinct_ips rest (if any (λ ip. ip == obs.ip) seen then seen else seen ++ (obs.ip ∷ []))

module _ {Time : Type 0} ⦃clock : Clock Time⦄ where
  unfoldable pub prune : Time → ℕ → RateCounter Time → RateCounter Time
  prune now window_secs c =
      let cutoff = minus_secs now window_secs in
      record { timestamps = pop_front_while (λ t. before t cutoff) c.timestamps }

  unfoldable pub record_event : Time → ℕ → RateCounter Time → RateCounter Time × ℕ
  unfolding prune
  record_event now window_secs c =
      let c' = prune now window_secs (record { timestamps = c.timestamps ++ (now ∷ []) }) in
      (c', count c')

  unfoldable pub record_observation :
      Ipv4 → Option ℕ → Time → ℕ → MacFlapTracker Time → MacFlapTracker Time × ℕ
  unfolding distinct_ips
  record_observation ip vlan_id now window_secs t =
      let pushed =
        t.observations ++ (record { ip = ip; vlan_id = vlan_id; timestamp = now } ∷ []) in
      let cutoff = minus_secs now window_secs in
      let kept = pop_front_while (λ (o : MacObservation Time). before o.timestamp cutoff) pushed in
      (record { observations = kept }, length (distinct_ips kept []))

abbrev pub empty_counter : {Time : Type 0} → RateCounter Time
empty_counter = record { timestamps = [] }

abbrev pub empty_tracker : {Time : Type 0} → MacFlapTracker Time
empty_tracker = record { observations = [] }
