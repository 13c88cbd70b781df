-- ===== src/Bilgepump/Arp/Exempt.antt =====
-- Exempt addresses over sequences of calls of the detector.
use marlinspike_dpi.Prelude.{
  ◌≡◌, refl, ◌∙◌, Bool, true, false, Option, none, some, List, [], ◌∷◌, arith, not, ◌&&◌, ◌==◌,
  ==_refl, is_some_and, is_some, ℕ, Bool-cases, Option-cases, inl, inr, unwrap_or,
}
use marlinspike_dpi.Prelude.Text.{Mac, Ipv4, mac_eq, ipv4_eq, ipv4_equal_iff}
use marlinspike_dpi.Prelude.Clock.{Clock}
use marlinspike_dpi.HashMap.{Map, lookup, insert, retain, Distinct}
use marlinspike_dpi.HashMap.Laws.{insert-Distinct, retain-Distinct, lookup-retain, lookup-insert}
use marlinspike_dpi.Bilgepump.State.{MacIpBinding}
use marlinspike_dpi.Bilgepump.Config.{BilgepumpConfig}
use marlinspike_dpi.Bilgepump.Arp.{
  ArpFields, ArpDetector, observe, evict, record_dhcp_binding, is_spoof, updated_binding,
}
use marlinspike_dpi.Bilgepump.Arp.Frame.{
  raises_spoof, raises_spoof-observe, lookup-observe, lookup-observe_self,
}
use marlinspike_dpi.Bilgepump.Arp.Invariant.{Op, observed, evicted, dhcp_bound, apply, apply_all}

retain_kept :
    {V : Type 0} (p : V → Bool) (ip : Ipv4) (m : Map Ipv4 V)
    → Distinct m
    → is_some (lookup ip (retain p m)) ≡ true
    → lookup ip (retain p m) ≡ lookup ip m
retain_kept p ip m d k = elim (Option-cases (lookup ip m)) [
  | inl q ↦ ground (arith, lookup-retain p ip m d, q)
  | inr (v, q) ↦ ground (arith, lookup-retain p ip m d, q)
]

module _ {Time : Type 0} ⦃clock : Clock Time⦄ (config : BilgepumpConfig) where
  updated_binding-blessed :
      (fields : ArpFields) (now : Time) (o : Option (MacIpBinding Time))
      → is_some_and o (λ b. b.is_blessed) ≡ true
      → (updated_binding fields config now o).is_blessed ≡ true
  unfolding updated_binding
  updated_binding-blessed fields now none h = ground arith
  updated_binding-blessed fields now (some b) h = h

  updated_binding-taken :
      (fields : ArpFields) (now : Time) (o : Option (MacIpBinding Time))
      → is_some_and o (λ b. b.is_blessed) ≡ true
      → (let b = updated_binding fields config now o in b.mac == fields.sender_mac && b.is_blessed)
        ≡ true
  unfolding updated_binding
  updated_binding-taken fields now none h = ground arith
  updated_binding-taken fields now (some b) h = rw (==_refl fields.sender_mac) h

  is_spoof-blessed :
      (fields : ArpFields) (now : Time) (o : Option (MacIpBinding Time))
      → is_some_and o (λ b. b.is_blessed) ≡ true
      → is_some_and o (is_spoof fields config now) ≡ false
  unfolding is_spoof
  is_spoof-blessed fields now none h = refl
  is_spoof-blessed fields now (some b) h = ground arith

  observe-blessed :
      (ip : Ipv4) (fields : ArpFields) (now : Time) (det : ArpDetector Time)
      → is_some_and (lookup ip det.ip_bindings) (λ b. b.is_blessed) ≡ true
      → is_some_and (lookup ip (observe fields config now det).0.ip_bindings) (λ b. b.is_blessed)
        ≡ true
  observe-blessed ip fields now det h = ground (
    arith,
    lookup-observe fields config now ip det,
    ipv4_equal_iff fields.sender_ip ip,
    updated_binding-blessed fields now (lookup fields.sender_ip det.ip_bindings),
  )

  -- The call is no eviction that removes the binding of the address.
  abbrev pub Keeps : Ipv4 → Op Time → ArpDetector Time → Type 0
  Keeps ip (observed fields now) det = Unit
  Keeps ip (dhcp_bound mac other now) det = Unit
  Keeps ip (evicted now ttl) det = is_some (lookup ip (evict now ttl det).ip_bindings) ≡ true

  -- No call of the sequence is one, each in the state that it meets.
  abbrev pub AllKeep : Ipv4 → List (Op Time) → ArpDetector Time → Type 0
  AllKeep ip [] det = Unit
  AllKeep ip (op ∷ ops) det = Keeps ip op det × AllKeep ip ops (apply config op det)

  evict-blessed :
      (ip : Ipv4) (now : Time) (ttl : ℕ) (det : ArpDetector Time)
      → Distinct det.ip_bindings
      → is_some (lookup ip (evict now ttl det).ip_bindings) ≡ true
      → is_some_and (lookup ip det.ip_bindings) (λ b. b.is_blessed) ≡ true
      → is_some_and (lookup ip (evict now ttl det).ip_bindings) (λ b. b.is_blessed) ≡ true
  unfolding evict
  evict-blessed ip now ttl det d k h = rw (retain_kept _ ip det.ip_bindings d k) h

  insert-blessed :
      (ip other : Ipv4) (b : MacIpBinding Time) (m : Map Ipv4 (MacIpBinding Time))
      → (other ≡ ip → b.is_blessed ≡ true)
      → is_some_and (lookup ip m) (λ b. b.is_blessed) ≡ true
      → is_some_and (lookup ip (insert other b m)) (λ b. b.is_blessed) ≡ true
  insert-blessed ip other b m k h = elim (Bool-cases (other == ip)) [
    | inl q ↦ rw (lookup-insert other ip b m, q) (k ((ipv4_equal_iff other ip).0 q))
    | inr q ↦ rw (lookup-insert other ip b m, q) h
  ]

  unwrap_or-blessed :
      (o : Option (MacIpBinding Time)) (d : MacIpBinding Time)
      → is_some_and o (λ b. b.is_blessed) ≡ true
      → (unwrap_or o d).is_blessed ≡ true
  unwrap_or-blessed none d h = ground (arith, h)
  unwrap_or-blessed (some b) d h = h

  record_dhcp_binding-blessed :
      (ip other : Ipv4) (mac : Mac) (now : Time) (det : ArpDetector Time)
      → is_some_and (lookup ip det.ip_bindings) (λ b. b.is_blessed) ≡ true
      → is_some_and
          (lookup ip (record_dhcp_binding mac other now det).ip_bindings)
          (λ b. b.is_blessed)
        ≡ true
  unfolding record_dhcp_binding
  record_dhcp_binding-blessed ip other mac now det h =
      insert-blessed ip other _ det.ip_bindings
        (λ e. unwrap_or-blessed (lookup other det.ip_bindings) _ (rw e h)) h

  apply-blessed :
      (ip : Ipv4) (op : Op Time) (det : ArpDetector Time)
      → Distinct det.ip_bindings
      → Keeps ip op det
      → is_some_and (lookup ip det.ip_bindings) (λ b. b.is_blessed) ≡ true
      → is_some_and (lookup ip (apply config op det).ip_bindings) (λ b. b.is_blessed) ≡ true
  unfolding apply
  apply-blessed ip (observed fields now) det d k h = observe-blessed ip fields now det h
  apply-blessed ip (evicted now ttl) det d k h = evict-blessed ip now ttl det d k h
  apply-blessed ip (dhcp_bound mac other now) det d k h =
      record_dhcp_binding-blessed ip other mac now det h

  observe-Distinct :
      (fields : ArpFields) (now : Time) (det : ArpDetector Time)
      → Distinct det.ip_bindings
      → Distinct (observe fields config now det).0.ip_bindings
  unfolding observe
  observe-Distinct fields now det d = elim (Bool-cases (not config.check_arp_spoofing)) [
    | inl e ↦ rw (e, observe) d
    | inr e ↦ rw (e, observe) (insert-Distinct fields.sender_ip _ det.ip_bindings d)
  ]

  apply-Distinct :
      (op : Op Time) (det : ArpDetector Time)
      → Distinct det.ip_bindings
      → Distinct (apply config op det).ip_bindings
  unfolding apply evict record_dhcp_binding
  apply-Distinct (observed fields now) det d = observe-Distinct fields now det d
  apply-Distinct (evicted now ttl) det d = retain-Distinct _ det.ip_bindings d
  apply-Distinct (dhcp_bound mac ip now) det d = insert-Distinct ip _ det.ip_bindings d

  apply_all-blessed :
      (ip : Ipv4) (ops : List (Op Time)) (det : ArpDetector Time)
      → Distinct det.ip_bindings
      → AllKeep ip ops det
      → is_some_and (lookup ip det.ip_bindings) (λ b. b.is_blessed) ≡ true
      → is_some_and (lookup ip (apply_all config ops det).ip_bindings) (λ b. b.is_blessed) ≡ true
  unfolding apply_all
  apply_all-blessed ip [] det d k h = h
  apply_all-blessed ip (op ∷ ops) det d (k, ks) h =
      apply_all-blessed ip ops (apply config op det) (apply-Distinct op det d) ks
        (apply-blessed ip op det d k h)

  -- Once an address is bound with the exemption, in a table without a repeated key, no frame about
  -- it raises a spoofing alert after any sequence of calls (frames, bindings that a DHCP ack
  -- teaches, evictions) in which no eviction removes that binding, whatever hardware address the
  -- frame carries; and with the check on the binding is then that hardware address's, still exempt.
  pub blessed_silences :
      (ip : Ipv4) (ops : List (Op Time)) (fields : ArpFields) (now : Time) (det : ArpDetector Time)
      → config.check_arp_spoofing ≡ true
      → Distinct det.ip_bindings
      → is_some_and (lookup ip det.ip_bindings) (λ b. b.is_blessed) ≡ true
      → AllKeep ip ops det
      → fields.sender_ip ≡ ip
      → (raises_spoof (observe fields config now (apply_all config ops det)).1 ≡ false)
        × (is_some_and
              (lookup ip (observe fields config now (apply_all config ops det)).0.ip_bindings)
              (λ b. b.mac == fields.sender_mac && b.is_blessed)
            ≡ true)
  blessed_silences ip ops fields now det on d h k same =
      let det' = apply_all config ops det in
      let h' = apply_all-blessed ip ops det d k h in
      (
        raises_spoof-observe fields config now det'
            ∙ ground (arith, is_spoof-blessed fields now (lookup ip det'.ip_bindings), same),
        rw (← same) (
            rw (lookup-observe_self fields config now det' on) (
              updated_binding-taken fields now (lookup fields.sender_ip det'.ip_bindings)
                (rw same h'))),
      )
