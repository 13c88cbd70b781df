-- ===== src/Bilgepump/Arp/Frame.antt =====
-- One frame: which alerts it raises, and what it leaves alone.
use marlinspike_dpi.Prelude.{
  ◌≡◌, ◌≢◌, refl, Bool, true, false, some, List, [], ◌∷◌, ◌++◌, arith, any, ◌&&◌, ◌||◌,
  if◌then◌else◌, ◌==◌, Option-cases, ne→==, inl, inr, is_some_and,
}
use marlinspike_dpi.Prelude.Text.{Mac, Ipv4, mac_eq, ipv4_eq}
use marlinspike_dpi.Prelude.Clock.{Clock, elapsed_over}
use marlinspike_dpi.HashMap.{Map, lookup}
use marlinspike_dpi.HashMap.Laws.{lookup-insert, lookup-insert_self, lookup-insert_ne}
use marlinspike_dpi.Bilgepump.State.{MacIpBinding, RateCounter}
use marlinspike_dpi.Bilgepump.Config.{BilgepumpConfig}
use marlinspike_dpi.Bilgepump.Alerts.{BilgepumpAlert, AlertKind}
use marlinspike_dpi.Bilgepump.Arp.{
  is_blessed, ArpFields, ArpDetector, observe, gratuitous_alerts, flood_check, count_reply,
  spoof_alerts, spoof_alert, is_spoof, updated_binding, record_dhcp_binding,
}

abbrev pub is_spoof_kind : BilgepumpAlert → Bool
is_spoof_kind a = elim a.kind [ AlertKind.arp_spoof_detected ip new old ↦ true | _ ↦ false ]

abbrev pub raises_spoof : List BilgepumpAlert → Bool
raises_spoof alerts = any is_spoof_kind alerts

pub any-append {ℓ} :
    {A : Type ℓ} (p : A → Bool) (xs ys : List A) → any p (xs ++ ys) ≡ (any p xs || any p ys)
any-append p [] ys = refl
any-append p (x ∷ xs) ys = ground (arith, any-append p xs ys)

gratuitous_alerts-raises_spoof :
    (fields : ArpFields) → raises_spoof (gratuitous_alerts fields) ≡ false
unfolding gratuitous_alerts
gratuitous_alerts-raises_spoof fields = ground arith

module _ {Time : Type 0} ⦃clock : Clock Time⦄ (fields : ArpFields) (config : BilgepumpConfig)
    (now : Time) where
  flood_check-raises_spoof :
      (counters : Map Mac (RateCounter Time))
      → raises_spoof (flood_check fields config now counters).1 ≡ false
  unfolding flood_check count_reply
  flood_check-raises_spoof counters = ground arith

  spoof_alerts-raises_spoof :
      (bindings : Map Ipv4 (MacIpBinding Time))
      → raises_spoof (spoof_alerts fields config now bindings)
        ≡ is_some_and (lookup fields.sender_ip bindings) (is_spoof fields config now)
  unfolding spoof_alerts spoof_alert
  spoof_alerts-raises_spoof bindings = ground arith

  -- A frame raises a spoofing alert exactly when the check is on and the binding of its sender
  -- address meets the four conditions.
  pub raises_spoof-observe :
      (det : ArpDetector Time)
      → raises_spoof (observe fields config now det).1 ≡ (
          config.check_arp_spoofing
          && is_some_and (lookup fields.sender_ip det.ip_bindings) (is_spoof fields config now))
  unfolding observe
  raises_spoof-observe det = ground (
    arith,
    any-append is_spoof_kind (gratuitous_alerts fields) (
        (flood_check fields config now det.reply_counters).1
        ++ spoof_alerts fields config now det.ip_bindings),
    any-append is_spoof_kind (flood_check fields config now det.reply_counters).1
        (spoof_alerts fields config now det.ip_bindings),
    gratuitous_alerts-raises_spoof fields,
    flood_check-raises_spoof det.reply_counters,
    spoof_alerts-raises_spoof det.ip_bindings,
  )

  -- The binding of the sender address after the frame.
  pub lookup-observe_self :
      (det : ArpDetector Time)
      → config.check_arp_spoofing ≡ true
      → lookup fields.sender_ip (observe fields config now det).0.ip_bindings
        ≡ some (updated_binding fields config now (lookup fields.sender_ip det.ip_bindings))
  unfolding observe
  lookup-observe_self det e = ground (
    arith,
    lookup-insert_self fields.sender_ip
        (updated_binding fields config now (lookup fields.sender_ip det.ip_bindings))
        det.ip_bindings,
  )

  -- No other binding changes.
  pub lookup-observe_ne :
      (ip : Ipv4) (det : ArpDetector Time)
      → fields.sender_ip ≢ ip
      → lookup ip (observe fields config now det).0.ip_bindings ≡ lookup ip det.ip_bindings
  unfolding observe
  lookup-observe_ne ip det ne = ground (
    arith,
    lookup-insert_ne fields.sender_ip ip
        (updated_binding fields config now (lookup fields.sender_ip det.ip_bindings))
        det.ip_bindings ne,
  )

  -- The bindings after the frame, at every address.
  pub lookup-observe :
      (ip : Ipv4) (det : ArpDetector Time)
      → lookup ip (observe fields config now det).0.ip_bindings ≡ (
          if config.check_arp_spoofing && fields.sender_ip == ip
          then some (updated_binding fields config now (lookup fields.sender_ip det.ip_bindings))
          else lookup ip det.ip_bindings)
  unfolding observe
  lookup-observe ip det = ground (
    arith,
    lookup-insert fields.sender_ip ip
        (updated_binding fields config now (lookup fields.sender_ip det.ip_bindings))
        det.ip_bindings,
  )

module _ {Time : Type 0} where
  -- The binding that a DHCP acknowledgement leaves: of the client, seen now, exempt only if it was.
  pub lookup-record_dhcp_binding :
      (mac : Mac) (ip : Ipv4) (now : Time) (det : ArpDetector Time)
      → is_some_and (lookup ip det.ip_bindings) (λ b. b.is_blessed) ≡ false
      → (b : MacIpBinding Time) × (lookup ip (record_dhcp_binding mac ip now det).ip_bindings
          ≡ some b)
        × (b.mac ≡ mac)
        × (b.last_seen ≡ now)
        × (b.is_blessed ≡ false)
  unfolding record_dhcp_binding
  lookup-record_dhcp_binding mac ip now det free = elim (Option-cases (lookup ip det.ip_bindings)) [
    | inl e ↦ (_, lookup-insert_self ip _ det.ip_bindings, refl, refl, rw e refl)
    | inr (b, e) ↦ (_, lookup-insert_self ip _ det.ip_bindings, refl, refl, rw e (rw e at free))
  ]

module _ {Time : Type 0} ⦃clock : Clock Time⦄ where
  -- A binding of another hardware address, not exempt and not expired, is taken over.
  pub is_spoof-taken :
      (fields : ArpFields) (config : BilgepumpConfig) (t u : Time) (b : MacIpBinding Time)
      (owner : Mac)
      → b.mac ≡ owner
      → b.last_seen ≡ t
      → b.is_blessed ≡ false
      → owner ≢ fields.sender_mac
      → is_blessed config fields ≡ false
      → elapsed_over u t config.arp_binding_ttl_secs ≡ false
      → is_spoof fields config u b ≡ true
  unfolding is_spoof
  is_spoof-taken fields config t u b owner own at_t exempt differ unlisted fresh =
      ground (arith, ne→== owner fields.sender_mac differ)
