-- ===== src/Icmpeeker.antt =====
-- `src/icmpeeker.rs`: threats in ICMP packets.
pub mod Laws
mod Tests
use marlinspike_dpi.Prelude.{
  ℕ, ◌-◌, Bool, true, false, ◌&&◌, ◌||◌, not, List, [], ◌∷◌, ◌++◌, if◌then◌else◌, eqb, ltb, leb,
  length, get_or, drop,
}
use marlinspike_dpi.Prelude.Text.{Text, Ipv4, codes}
use marlinspike_dpi.Format.{format_ipv4}
use marlinspike_dpi.Stovetop.Findings.{
  FindingSeverity, medium, high, critical, FindingKind, icmp_redirect, icmp_tunnel,
  icmp_suspicious_type, FrameFinding,
}

pub record IcmpeekerConfig (Float : Type 0) : Type 0 where
  pub enabled : Bool
  pub check_redirects : Bool
  pub check_tunnels : Bool
  pub check_suspicious_types : Bool
  pub tunnel_min_payload : ℕ
  pub tunnel_entropy_threshold : Float

unfoldable pub icmp_type_name : ℕ → Text
icmp_type_name t =
    if eqb t 0
    then codes "Echo Reply"
    else if eqb t 3
    then codes "Destination Unreachable"
    else if eqb t 4
    then codes "Source Quench"
    else if eqb t 5
    then codes "Redirect"
    else if eqb t 8
    then codes "Echo Request"
    else if eqb t 9
    then codes "Router Advertisement"
    else if eqb t 10
    then codes "Router Solicitation"
    else if eqb t 11
    then codes "Time Exceeded"
    else if eqb t 12
    then codes "Parameter Problem"
    else if eqb t 13
    then codes "Timestamp Request"
    else if eqb t 14
    then codes "Timestamp Reply"
    else if eqb t 17
    then codes "Address Mask Request"
    else if eqb t 18
    then codes "Address Mask Reply"
    else codes "Unknown"

-- The four bytes behind the checksum.
abbrev pub gateway : List ℕ → Ipv4
gateway p = record { o0 = get_or p 4 0; o1 = get_or p 5 0; o2 = get_or p 6 0; o3 = get_or p 7 0 }

unfoldable pub gateway_ip : List ℕ → Text
gateway_ip p = if leb 8 (length p) then format_ipv4 (gateway p) else codes "unknown"

abbrev pub is_router : ℕ → Bool
is_router t = eqb t 9 || eqb t 10

abbrev pub is_deprecated : ℕ → Bool
is_deprecated t = eqb t 13 || eqb t 14 || eqb t 17 || eqb t 18

-- Floating-point numbers, their strict order and the entropy of bytes are parameters.
module _ {Float : Type 0} (above : Float → Float → Bool) (shannon_entropy : List ℕ → Float) where
  unfoldable pub redirect_findings :
      IcmpeekerConfig Float → List ℕ → ℕ → ℕ → List (FrameFinding Float)
  redirect_findings config p icmp_type icmp_code =
      if config.check_redirects && eqb icmp_type 5
      then record {
        kind = icmp_redirect icmp_type icmp_code (gateway_ip p);
        severity = critical;
        decoder = "icmpeeker:redirect";
      }
        ∷ []
      else []

  unfoldable pub tunnel_findings : IcmpeekerConfig Float → List ℕ → ℕ → List (FrameFinding Float)
  tunnel_findings config p icmp_type =
      if config.check_tunnels
        && (eqb icmp_type 8 || eqb icmp_type 0)
        && ltb 8 (length p)
        && leb config.tunnel_min_payload (length (drop 8 p))
        && above (shannon_entropy (drop 8 p)) config.tunnel_entropy_threshold
      then record {
        kind = icmp_tunnel icmp_type (length (drop 8 p)) (shannon_entropy (drop 8 p));
        severity = high;
        decoder = "icmpeeker:tunnel";
      }
        ∷ []
      else []

  unfoldable pub suspicious_findings :
      IcmpeekerConfig Float → (ℕ → Bool) → FindingSeverity → ℕ → ℕ → List (FrameFinding Float)
  suspicious_findings config matches severity icmp_type icmp_code =
      if config.check_suspicious_types && matches icmp_type
      then record {
        kind = icmp_suspicious_type icmp_type icmp_code (icmp_type_name icmp_type);
        severity = severity;
        decoder = "icmpeeker:suspicious";
      }
        ∷ []
      else []

  unfoldable pub inspect : IcmpeekerConfig Float → List ℕ → List (FrameFinding Float)
  inspect config p =
      let icmp_type = get_or p 0 0 in
      let icmp_code = get_or p 1 0 in
      if not config.enabled || ltb (length p) 4
      then []
      else redirect_findings config p icmp_type icmp_code
        ++ (tunnel_findings config p icmp_type
            ++ (suspicious_findings config is_router high icmp_type icmp_code
                ++ suspicious_findings config is_deprecated medium icmp_type icmp_code))
