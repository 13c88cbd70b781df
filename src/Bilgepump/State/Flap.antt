-- ===== src/Bilgepump/State/Flap.antt =====
-- `MacFlapTracker`: the number that `record` returns.
use marlinspike_dpi.Prelude.{ℕ, ◌≡◌, refl, ap, Option, List, [], ◌∷◌, ◌++◌, keep, length, map}
use marlinspike_dpi.Prelude.Text.{Ipv4, ipv4_eq}
use marlinspike_dpi.Prelude.Distinct.{has, NoRepeat, collect, collect-NoRepeat, has-collect}
use marlinspike_dpi.Prelude.Clock.{Clock, IsClock, minus_secs, NotAfter}
use marlinspike_dpi.Bilgepump.State.{
  MacFlapTracker, MacObservation, distinct_ips, record_observation,
}
use marlinspike_dpi.Bilgepump.State.Prune.{
  since, Sorted, UpTo, Sorted-snoc, UpTo-mono, UpTo-snoc, pop_front_while-push,
}

abbrev pub stamp : {Time : Type 0} → MacObservation Time → Time
stamp o = o.timestamp

abbrev pub addresses : {Time : Type 0} → List (MacObservation Time) → List Ipv4
addresses os = map (λ o. o.ip) os

distinct_ips-collect :
    {Time : Type 0} (os : List (MacObservation Time)) (seen : List Ipv4)
    → distinct_ips os seen ≡ collect (addresses os) seen
unfolding distinct_ips
distinct_ips-collect [] seen = refl
distinct_ips-collect (o ∷ os) seen = distinct_ips-collect os _

module _ {Time : Type 0} ⦃clock : Clock Time⦄ where
  -- The tracker holds the observations of the history that the last window reaches.
  pub record Holds (secs : ℕ) (last : Time) (t : MacFlapTracker Time)
      (h : List (MacObservation Time)) : Type 0 where
    pub sorted : Sorted stamp h
    pub past : UpTo stamp last h
    pub held : t.observations ≡ keep (since stamp (minus_secs last secs)) h

-- `n` is the number of distinct addresses in the list.
abbrev pub CountsDistinct : ℕ → List Ipv4 → Type 0
CountsDistinct n ips =
    (seen : List Ipv4) × (n ≡ length seen)
    × NoRepeat seen
    × ((ip : Ipv4) → has ip seen ≡ has ip ips)

module _ {Time : Type 0} ⦃clock : Clock Time⦄ (laws : IsClock clock) where
  -- For an observation that is not older than the history, the tracker keeps exactly the part of
  -- the history in the window, and the returned number counts the distinct addresses of that part.
  record_observation_lem :
      (secs : ℕ) (last now : Time) (ip : Ipv4) (vlan_id : Option ℕ) (t : MacFlapTracker Time)
      (h : List (MacObservation Time))
      → NotAfter last now
      → Holds secs last t h
      → Holds secs now
          (record_observation ip vlan_id now secs t).0
          (h ++ (record { ip = ip; vlan_id = vlan_id; timestamp = now } ∷ []))
        × CountsDistinct (record_observation ip vlan_id now secs t).1 (
            addresses (
              keep
                (since stamp (minus_secs now secs))
                (h ++ (record { ip = ip; vlan_id = vlan_id; timestamp = now } ∷ []))))
  unfolding record_observation
  record_observation_lem secs last now ip vlan_id t h le k =
      let o : MacObservation Time = record { ip = ip; vlan_id = vlan_id; timestamp = now } in
      let up = UpTo-mono laws stamp last now h le k.past in
      let held =
        pop_front_while-push laws stamp (minus_secs last secs) (minus_secs now secs) o
          t.observations h (laws.minus_mono last now secs le) k.sorted up k.held in
      let kept = keep (since stamp (minus_secs now secs)) (h ++ (o ∷ [])) in
      let ips = addresses kept in
      (
        record {
          sorted = Sorted-snoc stamp o h k.sorted up;
          past = UpTo-snoc laws stamp o h up;
          held = held;
        },
        (
          collect ips [],
          rw held (ap length (distinct_ips-collect {Time = Time} kept [])),
          collect-NoRepeat ips [] tt,
          λ a. has-collect a ips [],
        ),
      )
