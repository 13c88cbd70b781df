-- ===== src/Icmpeeker/Laws.antt =====
-- What a packet raises, by the class of its type.
use mathlib.Core.List.{append-nil}
use marlinspike_dpi.Format.{format_ipv4}
use marlinspike_dpi.Prelude.Text.{Text, codes}
use marlinspike_dpi.Prelude.{
  ℕ, ◌≤◌, ◌≡◌, Bool, true, ◌&&◌, ◌||◌, some, List, [], ◌∷◌, arith, if◌then◌else◌, eqb, ltb, leb,
  length, drop, get_or, ◌-◌, length-drop, Bool-cases, inl, inr, ◌++◌, false, refl, not, ◌∙◌,
}
use marlinspike_dpi.Stovetop.Findings.{
  FindingSeverity, medium, high, critical, FrameFinding, icmp_redirect, icmp_tunnel,
  icmp_suspicious_type,
}
use marlinspike_dpi.Icmpeeker.{
  IcmpeekerConfig, inspect, redirect_findings, tunnel_findings, suspicious_findings, gateway,
  gateway_ip, icmp_type_name, is_router, is_deprecated,
}
use marlinspike_dpi.Bilgepump.Monitor.{parse_ipv4}
use marlinspike_dpi.Bilgepump.Monitor.ParseIpv4.{IsOctets, parse_ipv4-format_ipv4}

-- The classes of types that are looked at.
pub data Class : Type 0 where
  redirect : Class
  echo : Class
  router : Class
  deprecated : Class
  benign : Class

abbrev pub class_of : ℕ → Class
class_of t =
    if eqb t 5
    then redirect
    else if eqb t 0 || eqb t 8
    then echo
    else if eqb t 9 || eqb t 10
    then router
    else if eqb t 13 || eqb t 14 || eqb t 17 || eqb t 18
    then deprecated
    else benign

abbrev router_name : ℕ → Text
router_name t = if eqb t 9 then codes "Router Advertisement" else codes "Router Solicitation"

abbrev deprecated_name : ℕ → Text
deprecated_name t =
    if eqb t 13
    then codes "Timestamp Request"
    else if eqb t 14
    then codes "Timestamp Reply"
    else if eqb t 17
    then codes "Address Mask Request"
    else codes "Address Mask Reply"

abbrev suspicious : {Float : Type 0} → List ℕ → Text → FindingSeverity → FrameFinding Float
suspicious p name severity = record {
  kind = icmp_suspicious_type (get_or p 0 0) (get_or p 1 0) name;
  severity = severity;
  decoder = "icmpeeker:suspicious";
}

abbrev pick : {A : Type 0} → A → A → A → A → A → Class → A
pick r e w d n redirect = r
pick r e w d n echo = e
pick r e w d n router = w
pick r e w d n deprecated = d
pick r e w d n benign = n

-- The four tests do not meet.
one_class :
    {A : Type 0} (t : ℕ) (r e w d : List A)
    → (if eqb t 5 then r else [])
        ++ ((if eqb t 0 || eqb t 8 then e else [])
            ++ ((if is_router t then w else []) ++ (if is_deprecated t then d else [])))
      ≡ pick r e w d [] (class_of t)
one_class t r e w d = ground (arith, append-nil r, append-nil e, append-nil w)

module _ {Float : Type 0} (above : Float → Float → Bool) (shannon_entropy : List ℕ → Float) where
  -- The finding that the class calls for, under the switches.
  abbrev pub expected : IcmpeekerConfig Float → List ℕ → Class → List (FrameFinding Float)
  expected config p redirect =
      if config.check_redirects
      then record {
        kind = icmp_redirect 5 (get_or p 1 0) (
            if leb 8 (length p)
            then format_ipv4 (record {
              o0 = get_or p 4 0;
              o1 = get_or p 5 0;
              o2 = get_or p 6 0;
              o3 = get_or p 7 0;
            })
            else codes "unknown");
        severity = critical;
        decoder = "icmpeeker:redirect";
      }
        ∷ []
      else []
  expected config p echo =
      if config.check_tunnels
        && ltb 8 (length p)
        && leb config.tunnel_min_payload (length p - 8)
        && above (shannon_entropy (drop 8 p)) config.tunnel_entropy_threshold
      then record {
        kind = icmp_tunnel (get_or p 0 0) (length p - 8) (shannon_entropy (drop 8 p));
        severity = high;
        decoder = "icmpeeker:tunnel";
      }
        ∷ []
      else []
  expected config p router =
      if config.check_suspicious_types
      then suspicious p (router_name (get_or p 0 0)) high ∷ []
      else []
  expected config p deprecated =
      if config.check_suspicious_types
      then suspicious p (deprecated_name (get_or p 0 0)) medium ∷ []
      else []
  expected config p benign = []

  pick-expected :
      (config : IcmpeekerConfig Float) (p : List ℕ) (c : Class)
      → pick
          (expected config p redirect)
          (expected config p echo)
          (expected config p router)
          (expected config p deprecated)
          []
          c
        ≡ expected config p c
  pick-expected config p redirect = refl
  pick-expected config p echo = refl
  pick-expected config p router = refl
  pick-expected config p deprecated = refl
  pick-expected config p benign = refl

  redirect_findings-expected :
      (config : IcmpeekerConfig Float) (p : List ℕ)
      → redirect_findings above shannon_entropy config p (get_or p 0 0) (get_or p 1 0)
        ≡ (if eqb (get_or p 0 0) 5 then expected config p redirect else [])
  unfolding redirect_findings gateway_ip
  redirect_findings-expected config p = elim (Bool-cases (eqb (get_or p 0 0) 5)) [
    | inl q ↦
        let five : get_or p 0 0 ≡ 5 = ground (arith, q) in
        elim (Bool-cases config.check_redirects) [
          | inl c ↦ rw (five, c) refl
          | inr c ↦ rw (five, c) refl
        ]
    | inr q ↦ elim (Bool-cases config.check_redirects) [
      | inl c ↦ rw (q, c) refl
      | inr c ↦ rw (q, c) refl
    ]
  ]

  tunnel_findings-expected :
      (config : IcmpeekerConfig Float) (p : List ℕ)
      → tunnel_findings above shannon_entropy config p (get_or p 0 0)
        ≡ (if eqb (get_or p 0 0) 0 || eqb (get_or p 0 0) 8 then expected config p echo else [])
  unfolding tunnel_findings
  tunnel_findings-expected config p = rw (length-drop 8 p) (ground arith)

  router_findings-expected :
      (config : IcmpeekerConfig Float) (p : List ℕ)
      → suspicious_findings above shannon_entropy config is_router high
          (get_or p 0 0)
          (get_or p 1 0)
        ≡ (if is_router (get_or p 0 0) then expected config p router else [])
  unfolding suspicious_findings icmp_type_name
  router_findings-expected config p = ground arith

  deprecated_findings-expected :
      (config : IcmpeekerConfig Float) (p : List ℕ)
      → suspicious_findings above shannon_entropy config is_deprecated medium
          (get_or p 0 0)
          (get_or p 1 0)
        ≡ (if is_deprecated (get_or p 0 0) then expected config p deprecated else [])
  unfolding suspicious_findings icmp_type_name
  deprecated_findings-expected config p = ground arith

  -- A packet of at least four bytes raises, with the inspection on, exactly the finding that the
  -- class of its type calls for, with its kind, its severity, its decoder and its details, and no
  -- other: no two of the four tests ever meet. A redirect names its gateway, an echo with a payload
  -- of high entropy is a tunnel, and the types of routers and the deprecated ones are suspicious
  -- under their names.
  pub inspect-expected :
      (config : IcmpeekerConfig Float) (p : List ℕ)
      → config.enabled ≡ true
      → 4 ≤ length p
      → inspect above shannon_entropy config p ≡ expected config p (class_of (get_or p 0 0))
  unfolding inspect
  inspect-expected config p h k =
      let long : ltb (length p) 4 ≡ false = ground (arith, k) in
      let off : not config.enabled || ltb (length p) 4 ≡ false = ground (arith, h, long) in
      rw
        (
          off,
          redirect_findings-expected config p,
          tunnel_findings-expected config p,
          router_findings-expected config p,
          deprecated_findings-expected config p,
        )
        (one_class (get_or p 0 0) (expected config p redirect) (expected config p echo)
            (expected config p router) (expected config p deprecated)
          ∙ pick-expected config p (class_of (get_or p 0 0)))

-- The gateway that a redirect names, in a packet of at least eight bytes, is read back from the
-- finding as the four bytes behind the checksum.
parse_ipv4-gateway_ip :
    (p : List ℕ)
    → 8 ≤ length p
    → IsOctets (gateway p)
    → parse_ipv4 (gateway_ip p) ≡ some (gateway p)
unfolding gateway_ip
parse_ipv4-gateway_ip p h o = ground (arith, parse_ipv4-format_ipv4 (gateway p) o)
