-- ===== src/Stovetop/Findings.antt =====
-- `src/stovetop/findings.rs`: kinds and severities of findings.
use marlinspike_dpi.Prelude.{ℕ}
use marlinspike_dpi.Prelude.Text.{Text}
use Prim.Native.String.{String}

pub data FindingSeverity : Type 0 where
  low : FindingSeverity
  medium : FindingSeverity
  high : FindingSeverity
  critical : FindingSeverity

-- The type of floating-point numbers is a parameter.
pub data FindingKind (Float : Type 0) : Type 0 where
  runt_frame : ℕ → ℕ → FindingKind Float
  oversized_frame : ℕ → ℕ → FindingKind Float
  truncated_capture : ℕ → ℕ → FindingKind Float
  non_zero_padding : ℕ → ℕ → Float → Text → FindingKind Float
  fcs_invalid : ℕ → ℕ → FindingKind Float
  dnp3_crc_invalid : ℕ → ℕ → ℕ → FindingKind Float
  icmp_redirect : ℕ → ℕ → Text → FindingKind Float
  icmp_tunnel : ℕ → ℕ → Float → FindingKind Float
  icmp_suspicious_type : ℕ → ℕ → Text → FindingKind Float
  icmp_unreachable_flood : ℕ → FindingKind Float

pub record FrameFinding (Float : Type 0) : Type 0 where
  pub kind : FindingKind Float
  pub severity : FindingSeverity
  pub decoder : String
