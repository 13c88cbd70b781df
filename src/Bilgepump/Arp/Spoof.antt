-- ===== src/Bilgepump/Arp/Spoof.antt =====
-- Spoofing over sequences of frames.
use marlinspike_dpi.Prelude.{
  ◌≡◌, ◌≢◌, refl, ◌∙◌, true, false, Option, none, some, List, [], ◌∷◌, arith, ne→==, is_some_and,
  All,
}
use marlinspike_dpi.Prelude.Text.{Ipv4, mac_eq, ipv4_eq}
use marlinspike_dpi.Prelude.Clock.{Clock, elapsed_over}
use marlinspike_dpi.HashMap.{lookup}
use marlinspike_dpi.Bilgepump.State.{MacIpBinding}
use marlinspike_dpi.Bilgepump.Config.{BilgepumpConfig}
use marlinspike_dpi.Bilgepump.Arp.{
  ArpFields, ArpDetector, observe, is_spoof, is_blessed, updated_binding,
}
use marlinspike_dpi.Bilgepump.Arp.Frame.{
  raises_spoof, raises_spoof-observe, lookup-observe_self, lookup-observe_ne,
}

-- A frame and the time at which it is seen.
abbrev pub Seen : Type 0 → Type 0
Seen Time = ArpFields × Time

module _ {Time : Type 0} ⦃clock : Clock Time⦄ (config : BilgepumpConfig) where
  unfoldable pub observe_all : List (Seen Time) → ArpDetector Time → ArpDetector Time
  observe_all [] det = det
  observe_all ((fields, now) ∷ rest) det = observe_all rest (observe fields config now det).0

  lookup-observe_all :
      (ip : Ipv4) (others : List (Seen Time)) (det : ArpDetector Time)
      → All (λ (s : Seen Time). s.0.sender_ip ≢ ip) others
      → lookup ip (observe_all others det).ip_bindings ≡ lookup ip det.ip_bindings
  unfolding observe_all
  lookup-observe_all ip [] det h = refl
  lookup-observe_all ip ((fields, now) ∷ rest) det (h, hs) =
      lookup-observe_all ip rest (observe fields config now det).0 hs
      ∙ lookup-observe_ne fields config now ip det h

  is_spoof-updated_binding :
      (first second : ArpFields) (t u : Time) (o : Option (MacIpBinding Time))
      → is_some_and o (λ b. b.is_blessed) ≡ false
      → first.sender_mac ≢ second.sender_mac
      → is_blessed config first ≡ false
      → is_blessed config second ≡ false
      → elapsed_over u t config.arp_binding_ttl_secs ≡ false
      → is_spoof second config u (updated_binding first config t o) ≡ true
  unfolding is_spoof updated_binding
  is_spoof-updated_binding first second t u none free differ nb1 nb2 fresh =
      rw (ne→== first.sender_mac second.sender_mac differ, nb1, nb2, fresh) refl
  is_spoof-updated_binding first second t u (some b) free differ nb1 nb2 fresh =
      rw (ne→== first.sender_mac second.sender_mac differ, nb2, free, fresh) refl

  -- The detector flags a takeover: a first frame binds an address that was unbound or bound
  -- without an exemption, frames about other addresses follow, and then a frame claims the address
  -- for another hardware address, neither pair being on the list, before the time limit.
  pub takeover_flagged :
      (first second : ArpFields) (t u : Time) (others : List (Seen Time)) (det : ArpDetector Time)
      → config.check_arp_spoofing ≡ true
      → is_some_and (lookup first.sender_ip det.ip_bindings) (λ b. b.is_blessed) ≡ false
      → second.sender_ip ≡ first.sender_ip
      → first.sender_mac ≢ second.sender_mac
      → is_blessed config first ≡ false
      → is_blessed config second ≡ false
      → All (λ (s : Seen Time). s.0.sender_ip ≢ first.sender_ip) others
      → elapsed_over u t config.arp_binding_ttl_secs ≡ false
      → raises_spoof (observe second config u (observe_all others (observe first config t det).0)).1
        ≡ true
  takeover_flagged first second t u others det on free same differ nb1 nb2 hs fresh =
      let d1 = (observe first config t det).0 in
      let bound = lookup-observe_self first config t det on in
      let held = lookup-observe_all first.sender_ip others d1 hs ∙ bound in
      let bound_now : lookup second.sender_ip (observe_all others d1).ip_bindings
          ≡ some (updated_binding first config t (lookup first.sender_ip det.ip_bindings)) =
        rw same held in
      let flagged =
        is_spoof-updated_binding first second t u (lookup first.sender_ip det.ip_bindings) free
          differ nb1 nb2 fresh in
      raises_spoof-observe second config u (observe_all others d1)
      ∙ ground (arith, bound_now, flagged)
