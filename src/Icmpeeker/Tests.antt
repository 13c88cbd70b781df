-- ===== src/Icmpeeker/Tests.antt =====
-- A redirect and an echo at concrete inputs, with bytes summed up in place of the entropy.
use marlinspike_dpi.Format.{format_ipv4, decimal}
use marlinspike_dpi.Prelude.Text.{codes}
use marlinspike_dpi.Prelude.{ℕ, ◌+◌, ◌≡◌, refl, Bool, true, List, [], ◌∷◌, arith, ltb, get_or}
use marlinspike_dpi.Stovetop.Findings.{critical, high, icmp_redirect, icmp_tunnel}
use marlinspike_dpi.Icmpeeker.{
  IcmpeekerConfig, inspect, redirect_findings, tunnel_findings, suspicious_findings, gateway_ip,
}
use marlinspike_dpi.Icmpeeker.Laws.{class_of, expected, inspect-expected}

abbrev sum : List ℕ → ℕ
sum [] = 0
sum (b ∷ bs) = b + sum bs

abbrev above : ℕ → ℕ → Bool
above a b = ltb b a

abbrev config : IcmpeekerConfig ℕ
config = record {
  enabled = true;
  check_redirects = true;
  check_tunnels = true;
  check_suspicious_types = true;
  tunnel_min_payload = 2;
  tunnel_entropy_threshold = 100;
}

abbrev redirect_packet : List ℕ
redirect_packet = 5 ∷ 1 ∷ 0 ∷ 0 ∷ 192 ∷ 168 ∷ 1 ∷ 254 ∷ []

abbrev echo_packet : List ℕ
echo_packet = 8 ∷ 0 ∷ 0 ∷ 0 ∷ 0 ∷ 1 ∷ 0 ∷ 1 ∷ 200 ∷ 7 ∷ []

inspect-expected_example :
    inspect above sum config echo_packet
    ≡ expected above sum config echo_packet (class_of (get_or echo_packet 0 0))
inspect-expected_example = inspect-expected above sum config echo_packet refl (omega arith)

raised :
    (inspect above sum config redirect_packet
      ≡ record {
        kind = icmp_redirect 5 1 (codes "192.168.1.254");
        severity = critical;
        decoder = "icmpeeker:redirect";
      }
        ∷ [])
    × (inspect above sum config echo_packet
        ≡ record { kind = icmp_tunnel 8 2 207; severity = high; decoder = "icmpeeker:tunnel" } ∷ [])
unfolding inspect redirect_findings tunnel_findings suspicious_findings gateway_ip format_ipv4
    decimal
raised = (refl, refl)
