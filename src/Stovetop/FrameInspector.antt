-- ===== src/Stovetop/FrameInspector.antt =====
-- `src/stovetop/frame_inspector.rs`: the checks of a frame before it is dissected.
pub mod Laws
use marlinspike_dpi.Prelude.{
  ℕ, Bool, true, false, ◌&&◌, not, Option, none, some, List, [], ◌∷◌, ◌++◌, if◌then◌else◌, ltb,
  length, take, min,
}
use marlinspike_dpi.Prelude.Text.{Text}
use marlinspike_dpi.Stovetop.Findings.{
  FindingSeverity, low, medium, high, FindingKind, runt_frame, oversized_frame, truncated_capture,
  non_zero_padding, fcs_invalid, FrameFinding,
}
use marlinspike_dpi.Stovetop.Config.{StovetopConfig}
use marlinspike_dpi.Stovetop.Padding.{Region, extract_padding, has_nonzero_padding}
use marlinspike_dpi.Stovetop.Integrity.{FcsCheck, validate_ethernet_fcs}

-- The arguments of `inspect_frame`.
pub record Frame : Type 0 where
  pub raw_frame : List ℕ
  pub captured_len : ℕ
  pub orig_len : ℕ
  pub ethertype : ℕ
  pub l2_payload : List ℕ
  pub ethernet_header_len : ℕ

-- The order of floating-point numbers, the entropy of bytes and the printing of bytes in
-- hexadecimal are parameters.
module _ {Float : Type 0} (above : Float → Float → Bool) (shannon_entropy : List ℕ → Float)
    (hex_encode : List ℕ → Text) where
  unfoldable pub check_runt : StovetopConfig Float → ℕ → List (FrameFinding Float)
  check_runt config orig_len =
      if ltb orig_len config.min_ethernet_frame && ltb 0 orig_len
      then record {
        kind = runt_frame orig_len config.min_ethernet_frame;
        severity = medium;
        decoder = "stovetop:runt";
      }
        ∷ []
      else []

  unfoldable pub check_oversized : StovetopConfig Float → ℕ → List (FrameFinding Float)
  check_oversized config orig_len =
      if ltb config.max_ethernet_frame orig_len
      then record {
        kind = oversized_frame orig_len config.max_ethernet_frame;
        severity = if ltb config.max_jumbo_frame orig_len then high else low;
        decoder = "stovetop:oversized";
      }
        ∷ []
      else []

  unfoldable pub check_truncation : ℕ → ℕ → List (FrameFinding Float)
  check_truncation captured_len orig_len =
      if ltb captured_len orig_len
      then record {
        kind = truncated_capture captured_len orig_len;
        severity = low;
        decoder = "stovetop:truncated";
      }
        ∷ []
      else []

  abbrev pub region_findings : StovetopConfig Float → Option Region → List (FrameFinding Float)
  region_findings config none = []
  region_findings config (some r) =
      if has_nonzero_padding r.padding
      then record {
        kind =
            non_zero_padding r.offset (length r.padding) (shannon_entropy r.padding)
              (hex_encode (take (min (length r.padding) 32) r.padding));
        severity =
            if above (shannon_entropy r.padding) config.padding_entropy_threshold
            then high
            else medium;
        decoder = "stovetop:padding";
      }
        ∷ []
      else []

  unfoldable pub check_padding : StovetopConfig Float → Frame → List (FrameFinding Float)
  check_padding config f =
      region_findings config (extract_padding f.ethertype f.l2_payload f.ethernet_header_len)

  abbrev pub fcs_findings : Option FcsCheck → List (FrameFinding Float)
  fcs_findings none = []
  fcs_findings (some c) =
      if c.valid
      then []
      else record {
        kind = fcs_invalid c.expected c.actual;
        severity = high;
        decoder = "stovetop:fcs";
      }
        ∷ []

  unfoldable pub check_fcs : Frame → List (FrameFinding Float)
  check_fcs f = fcs_findings (validate_ethernet_fcs f.raw_frame f.captured_len f.orig_len)

  unfoldable pub inspect_frame : StovetopConfig Float → Frame → List (FrameFinding Float)
  inspect_frame config f =
      if not config.enabled
      then []
      else (if config.check_runt_frames then check_runt config f.orig_len else [])
        ++ ((if config.check_oversized_frames then check_oversized config f.orig_len else [])
            ++ ((if config.check_truncation then check_truncation f.captured_len f.orig_len else [])
                ++ ((if config.check_padding then check_padding config f else [])
                    ++ (if config.check_fcs then check_fcs f else []))))
