-- ===== src/Stovetop/Config.antt =====
-- `src/stovetop/config.rs`: the checks and their thresholds.
use marlinspike_dpi.Prelude.{ℕ, Bool, true}

-- The type of floating-point numbers is a parameter.
pub record StovetopConfig (Float : Type 0) : Type 0 where
  pub enabled : Bool
  pub check_runt_frames : Bool
  pub check_oversized_frames : Bool
  pub check_truncation : Bool
  pub check_padding : Bool
  pub check_fcs : Bool
  pub check_protocol_crc : Bool
  pub min_ethernet_frame : ℕ
  pub max_ethernet_frame : ℕ
  pub max_jumbo_frame : ℕ
  pub padding_entropy_threshold : Float

abbrev pub default_config : {Float : Type 0} → Float → StovetopConfig Float
default_config half = record {
  enabled = true;
  check_runt_frames = true;
  check_oversized_frames = true;
  check_truncation = true;
  check_padding = true;
  check_fcs = true;
  check_protocol_crc = true;
  min_ethernet_frame = 60;
  max_ethernet_frame = 1514;
  max_jumbo_frame = 9018;
  padding_entropy_threshold = half;
}
