-- ===== src/Bilgepump/Mac/Laws.antt =====
-- Which source addresses are reported, and which trackers survive an eviction.
use Prim.Native.Nat.{bit_and}
use marlinspike_dpi.Prelude.{
  ℕ, ◌+◌, ◌/◌, ◌%◌, ◌≤◌, ◌<◌, ◌≡◌, refl, Bool, true, false, Option, eqb, eqb_iff, not, ◌&&◌, any,
  arith, filter_option, ◌==◌, length,
}
use marlinspike_dpi.Prelude.Text.{Mac, Ipv4, mac_eq}
use marlinspike_dpi.Prelude.Tables.{all_below, all_below→eq}
use marlinspike_dpi.Prelude.Clock.{Clock}
use marlinspike_dpi.HashMap.{lookup, Distinct}
use marlinspike_dpi.HashMap.Laws.{lookup-retain}
use marlinspike_dpi.Bilgepump.Config.{BilgepumpConfig}
use marlinspike_dpi.Bilgepump.Alerts.{BilgepumpAlert, AlertKind}
use marlinspike_dpi.Bilgepump.Mac.{
  MacDetector, inspect_mac, filled, evict, is_recent, observe_ip_association,
}
use marlinspike_dpi.Bilgepump.Arp.Frame.{raises_spoof}

abbrev pub is_local_kind : BilgepumpAlert → Bool
is_local_kind a = elim a.kind [ AlertKind.mac_locally_administered m ↦ true | _ ↦ false ]

abbrev pub is_multicast_kind : BilgepumpAlert → Bool
is_multicast_kind a = elim a.kind [ AlertKind.mac_multicast_source m ↦ true | _ ↦ false ]

bit_and-two : (b : ℕ) → b < 256 → bit_and b 0x02 ≡ b / 2 % 2 + b / 2 % 2
unfolding all_below
bit_and-two b h =
    (eqb_iff _ _).0 (all_below→eq 256 (λ x. eqb (bit_and x 0x02) (x / 2 % 2 + x / 2 % 2)) refl b h)

bit_and-one : (b : ℕ) → b < 256 → bit_and b 0x01 ≡ b % 2
unfolding all_below
bit_and-one b h = (eqb_iff _ _).0 (all_below→eq 256 (λ x. eqb (bit_and x 0x01) (x % 2)) refl b h)

-- With the check on, the first octet alone decides the locally-administered alert (its second-lowest
-- bit; the test against the zero address never matters), and the multicast alert is raised exactly
-- for an odd first octet of an address other than broadcast. No other alert is raised.
inspect_mac_lem :
    (mac : Mac) (config : BilgepumpConfig)
    → config.check_mac_anomalies ≡ true
    → mac.o0 < 256
    → (any is_local_kind (inspect_mac mac config) ≡ eqb (mac.o0 / 2 % 2) 1)
      × (any is_multicast_kind (inspect_mac mac config)
          ≡ (eqb (mac.o0 % 2) 1 && not (mac == filled 0xFF)))
      × (length (inspect_mac mac config) ≤ 2)
unfolding inspect_mac
inspect_mac_lem mac config on h = ground (arith, bit_and-two mac.o0 h, bit_and-one mac.o0 h)

module _ {Time : Type 0} ⦃clock : Clock Time⦄ where
  -- After an eviction a tracker is there exactly if it was and its newest observation is younger
  -- than the limit.
  pub lookup-evict :
      (now : Time) (ttl : ℕ) (mac : Mac) (det : MacDetector Time)
      → Distinct det.flap_trackers
      → lookup mac (evict now ttl det).flap_trackers
        ≡ filter_option (is_recent now ttl) (lookup mac det.flap_trackers)
  unfolding evict
  lookup-evict now ttl mac det d = lookup-retain (is_recent now ttl) mac det.flap_trackers d

  -- A flapping alert is no spoofing alert.
  pub observe_ip_association-raises_spoof :
      (mac : Mac) (ip : Ipv4) (vlan_id : Option ℕ) (config : BilgepumpConfig) (now : Time)
      (det : MacDetector Time)
      → raises_spoof (observe_ip_association mac ip vlan_id config now det).1 ≡ false
  unfolding observe_ip_association
  observe_ip_association-raises_spoof mac ip vlan_id config now det = ground arith
