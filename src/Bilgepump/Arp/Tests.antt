-- ===== src/Bilgepump/Arp/Tests.antt =====
-- The source's tests of the detector, and the theorems at concrete inputs.
use marlinspike_dpi.Prelude.{
  ℕ, ◌≡◌, refl, ap, true, false, none, [], ◌∷◌, arith, is_some_and, ◌==◌, ◌&&◌, List,
}
use marlinspike_dpi.Prelude.Text.{Mac, Ipv4, codes, mac_eq, ipv4_eq}
use marlinspike_dpi.Prelude.Ticks.{ticks, ticks-IsClock}
use marlinspike_dpi.HashMap.{lookup, insert, retain}
use marlinspike_dpi.Format.{format_mac, format_ipv4, decimal, hex2}
use marlinspike_dpi.Bilgepump.State.{BindingSource}
use marlinspike_dpi.Bilgepump.Config.{BilgepumpConfig, default_config}
use marlinspike_dpi.Bilgepump.Arp.{
  ArpFields, ArpDetector, default_detector, observe, evict, is_blessed, is_spoof, updated_binding,
  spoof_alerts, flood_check, gratuitous_alerts, is_reply, is_gratuitous, eq_ignore_ascii_case,
  spoof_alert, record_dhcp_binding,
}
use marlinspike_dpi.Bilgepump.Arp.Frame.{raises_spoof, raises_spoof-observe}
use marlinspike_dpi.Bilgepump.Arp.Invariant.{
  IsValid, Op, observed, evicted, dhcp_bound, apply, apply_all, apply_all-IsValid,
}
use marlinspike_dpi.Bilgepump.Arp.Spoof.{observe_all, takeover_flagged}
use marlinspike_dpi.Bilgepump.Arp.Exempt.{blessed_silences}

program : Unit {0}
unfolding lookup insert retain observe evict is_blessed is_spoof updated_binding spoof_alerts
    flood_check gratuitous_alerts is_reply is_gratuitous eq_ignore_ascii_case spoof_alert format_mac
    format_ipv4 decimal hex2 observe_all apply apply_all record_dhcp_binding
program = tt

abbrev mac_a : Mac
mac_a = record { o0 = 0x00; o1 = 0x11; o2 = 0x22; o3 = 0x33; o4 = 0x44; o5 = 0x55 }

abbrev mac_b : Mac
mac_b = record { o0 = 0xAA; o1 = 0xBB; o2 = 0xCC; o3 = 0xDD; o4 = 0xEE; o5 = 0xFF }

abbrev host : ℕ → Ipv4
host n = record { o0 = 10; o1 = 0; o2 = 0; o3 = n }

abbrev arp_reply : Mac → Ipv4 → ArpFields
arp_reply mac ip = record {
  operation = 2;
  sender_mac = mac;
  sender_ip = ip;
  target_mac = mac_a;
  target_ip = host 0;
}

abbrev config : BilgepumpConfig
config = record default_config {
  blessed_bindings =
      record { mac = codes "00:11:22:33:44:55"; ip = codes "10.0.0.9"; description = none } ∷ [];
}

-- The pair of the first address is on the list, in either case of its letters.
listed :
    (is_blessed config (arp_reply mac_a (host 9)) ≡ true)
    × (is_blessed config (arp_reply mac_b (host 9)) ≡ false)
    × (is_blessed config (arp_reply mac_a (host 1)) ≡ false)
    × (eq_ignore_ascii_case (codes "AA:bb") (format_mac mac_b) ≡ false)
unfolding program
listed = (refl, refl, refl, refl)

takeover_flagged_example :
    raises_spoof
      (observe {Time = ℕ} (arp_reply mac_b (host 1)) config 110 (
        observe_all config
          ((arp_reply mac_a (host 2), 105) ∷ [])
          (observe (arp_reply mac_a (host 1)) config 100 default_detector).0)).1
    ≡ true
unfolding program
takeover_flagged_example =
    takeover_flagged config (arp_reply mac_a (host 1)) (arp_reply mac_b (host 1)) 100 110
      ((arp_reply mac_a (host 2), 105) ∷ []) default_detector refl refl refl
      (λ e. omega (arith, ap (λ (m : Mac). m.o0) e)) refl refl
      ((λ e. omega (arith, ap (λ (a : Ipv4). a.o3) e)), tt) refl

abbrev exempt : ArpDetector ℕ
exempt = record {
  ip_bindings =
      (
        host 9,
        record {
          mac = mac_a;
          ip = host 9;
          first_seen = 90;
          last_seen = 90;
          source = BindingSource.blessed;
          is_blessed = true;
        },
      )
      ∷ [];
  reply_counters = [];
}

-- A frame of another address takes the exempt binding, an eviction in time and a lease leave it,
-- and an attacker's frame is not flagged.
abbrev calls : List (Op ℕ)
calls =
    observed (arp_reply mac_b (host 9)) 95 ∷ evicted 120 600 ∷ dhcp_bound mac_a (host 9) 125 ∷ []

blessed_silences_example :
    (raises_spoof (observe (arp_reply mac_b (host 9)) config 130 (apply_all config calls exempt)).1
      ≡ false)
    × (is_some_and
          (lookup
            (host 9)
            (observe
              (arp_reply mac_b (host 9))
              config
              130
              (apply_all config calls exempt)).0.ip_bindings)
          (λ b. b.mac == mac_b && b.is_blessed)
        ≡ true)
unfolding program
blessed_silences_example =
    blessed_silences config (host 9) calls (arp_reply mac_b (host 9)) 130 exempt refl (refl, tt)
      refl (tt, (refl, (tt, tt))) refl

apply_all-IsValid_example :
    IsValid (
      apply_all config (observed (arp_reply mac_a (host 1)) 100 ∷ []) (default_detector {Time = ℕ}))
apply_all-IsValid_example =
    apply_all-IsValid ticks-IsClock config (omega arith)
      (observed (arp_reply mac_a (host 1)) 100 ∷ []) default_detector
      (record { bindings = tt; counters = tt; live = tt })

raises_spoof-observe_example :
    raises_spoof (observe (arp_reply mac_b (host 9)) config 100 exempt).1 ≡ (
      config.check_arp_spoofing
      && is_some_and
          (lookup (host 9) exempt.ip_bindings)
          (is_spoof (arp_reply mac_b (host 9)) config 100))
raises_spoof-observe_example = raises_spoof-observe (arp_reply mac_b (host 9)) config 100 exempt
