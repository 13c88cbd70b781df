-- ===== src/Bilgepump/Arp/Invariant.antt =====
-- The tables of the detector over every sequence of calls.
use marlinspike_dpi.Prelude.{
  ℕ, ◌≤◌, ◌≡◌, true, List, [], ◌∷◌, arith, not, ◌||◌, Bool-cases, inl, inr, ltb, unwrap_or,
}
use marlinspike_dpi.Prelude.Text.{Mac, Ipv4, mac_eq, ipv4_eq}
use marlinspike_dpi.Prelude.Clock.{Clock, IsClock, max_secs}
use marlinspike_dpi.HashMap.{Map, lookup, Distinct}
use marlinspike_dpi.HashMap.Laws.{
  insert-Distinct, retain-Distinct, Values, Values-insert, retain_all,
}
use marlinspike_dpi.Bilgepump.State.{RateCounter, record_event, count, empty_counter}
use marlinspike_dpi.Bilgepump.State.Rate.{record_event_pos}
use marlinspike_dpi.Bilgepump.Config.{BilgepumpConfig}
use marlinspike_dpi.Bilgepump.Arp.{
  ArpFields, ArpDetector, observe, evict, flood_check, count_reply, is_reply, is_gratuitous,
  record_dhcp_binding,
}

-- No key stands twice, and no counter is empty.
pub record IsValid {Time : Type 0} (det : ArpDetector Time) : Type 0 where
  pub bindings : Distinct det.ip_bindings
  pub counters : Distinct det.reply_counters
  pub live : Values (λ (c : RateCounter Time). 1 ≤ count c) det.reply_counters

-- The calls that the monitor makes of the detector.
pub data Op (Time : Type 0) : Type 0 where
  observed : ArpFields → Time → Op Time
  evicted : Time → ℕ → Op Time
  dhcp_bound : Mac → Ipv4 → Time → Op Time

module _ {Time : Type 0} ⦃clock : Clock Time⦄ (config : BilgepumpConfig) where
  unfoldable pub apply : Op Time → ArpDetector Time → ArpDetector Time
  apply (observed fields now) det = (observe fields config now det).0
  apply (evicted now ttl) det = evict now ttl det
  apply (dhcp_bound mac ip now) det = record_dhcp_binding mac ip now det

  unfoldable pub apply_all : List (Op Time) → ArpDetector Time → ArpDetector Time
  apply_all [] det = det
  apply_all (op ∷ ops) det = apply_all ops (apply op det)

module _ {Time : Type 0} ⦃clock : Clock Time⦄ where
  evict_counters :
      (now : Time) (ttl : ℕ) (det : ArpDetector Time)
      → Values (λ (c : RateCounter Time). 1 ≤ count c) det.reply_counters
      → (evict now ttl det).reply_counters ≡ det.reply_counters
  unfolding evict
  evict_counters now ttl det h =
      retain_all (λ c. ltb 0 (count c)) det.reply_counters (go det.reply_counters h)
    where
      go :
          (m : Map Mac (RateCounter Time))
          → Values (λ (c : RateCounter Time). 1 ≤ count c) m
          → Values (λ (c : RateCounter Time). ltb 0 (count c) ≡ true) m
      go [] h = tt
      go ((k, c) ∷ m) (hc, hs) = (ground arith, go m hs)

  evict-IsValid :
      (now : Time) (ttl : ℕ) (det : ArpDetector Time) → IsValid det → IsValid (evict now ttl det)
  evict-IsValid now ttl det v = record {
    bindings = unfold evict in retain-Distinct _ det.ip_bindings v.bindings;
    counters = rw (evict_counters now ttl det v.live) v.counters;
    live = rw (evict_counters now ttl det v.live) v.live;
  }

  record_dhcp_binding-IsValid :
      (mac : Mac) (ip : Ipv4) (now : Time) (det : ArpDetector Time)
      → IsValid det
      → IsValid (record_dhcp_binding mac ip now det)
  unfolding record_dhcp_binding
  record_dhcp_binding-IsValid mac ip now det v = record {
    bindings = insert-Distinct ip _ det.ip_bindings v.bindings;
    counters = v.counters;
    live = v.live;
  }

module _ {Time : Type 0} ⦃clock : Clock Time⦄ (laws : IsClock clock) (config : BilgepumpConfig)
    (bounded : config.arp_flood_window_secs ≤ max_secs) where
  flood_check-live :
      (fields : ArpFields) (now : Time) (m : Map Mac (RateCounter Time))
      → Values (λ (c : RateCounter Time). 1 ≤ count c) m
      → Values (λ (c : RateCounter Time). 1 ≤ count c) (flood_check fields config now m).0
  unfolding flood_check count_reply
  flood_check-live fields now m h =
      let c = unwrap_or (lookup fields.sender_mac m) empty_counter in
      let r = record_event now config.arp_flood_window_secs c in
      elim (Bool-cases (is_reply fields || is_gratuitous fields)) [
        | inl e ↦ rw e (
            Values-insert (λ (c : RateCounter Time). 1 ≤ count c) fields.sender_mac r.0 m h (pos c))
        | inr e ↦ rw e h
      ]
    where
      pos : (c : RateCounter Time) → 1 ≤ count (record_event now config.arp_flood_window_secs c).0
      pos c =
          unfold record_event in record_event_pos laws now config.arp_flood_window_secs c bounded

  flood_check-Distinct :
      (fields : ArpFields) (now : Time) (m : Map Mac (RateCounter Time))
      → Distinct m
      → Distinct (flood_check fields config now m).0
  unfolding flood_check count_reply
  flood_check-Distinct fields now m h =
      elim (Bool-cases (is_reply fields || is_gratuitous fields)) [
        | inl e ↦ rw e (insert-Distinct fields.sender_mac _ m h)
        | inr e ↦ rw e h
      ]

  observe-IsValid :
      (fields : ArpFields) (now : Time) (det : ArpDetector Time)
      → IsValid det
      → IsValid (observe fields config now det).0
  unfolding observe
  observe-IsValid fields now det v = elim (Bool-cases (not config.check_arp_spoofing)) [
    | inl e ↦ rw (e, observe) v
    | inr e ↦
        rw (e, observe)
          (record {
            bindings = insert-Distinct fields.sender_ip _ det.ip_bindings v.bindings;
            counters = flood_check-Distinct fields now det.reply_counters v.counters;
            live = flood_check-live fields now det.reply_counters v.live;
          })
  ]

  apply-IsValid :
      (op : Op Time) (det : ArpDetector Time) → IsValid det → IsValid (apply config op det)
  unfolding apply
  apply-IsValid (observed fields now) det v = observe-IsValid fields now det v
  apply-IsValid (evicted now ttl) det v = evict-IsValid now ttl det v
  apply-IsValid (dhcp_bound mac ip now) det v = record_dhcp_binding-IsValid mac ip now det v

  -- From a detector in which no key stands twice and no reply counter is empty, such as the empty
  -- one, every sequence of calls keeps both so, where the flood window is at most `max_secs`, the
  -- most seconds that a duration holds.
  pub apply_all-IsValid :
      (ops : List (Op Time)) (det : ArpDetector Time)
      → IsValid det
      → IsValid (apply_all config ops det)
  unfolding apply_all
  apply_all-IsValid [] det v = v
  apply_all-IsValid (op ∷ ops) det v =
      apply_all-IsValid ops (apply config op det) (apply-IsValid op det v)
