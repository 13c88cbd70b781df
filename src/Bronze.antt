-- ===== src/Bronze.antt =====
-- `src/bronze.rs`: the types of a process reading that the protocol decoders share.
use marlinspike_dpi.Prelude.{ℕ, Bool, Option, List}
use marlinspike_dpi.Prelude.Text.{Text}
use marlinspike_dpi.Prelude.Int.{ℤ}

-- Floating-point numbers are their bit patterns.
pub data PointValue : Type 0 where
  null : PointValue
  bool : Bool → PointValue
  int8 : ℤ → PointValue
  int16 : ℤ → PointValue
  int32 : ℤ → PointValue
  int64 : ℤ → PointValue
  uint8 : ℕ → PointValue
  uint16 : ℕ → PointValue
  uint32 : ℕ → PointValue
  uint64 : ℕ → PointValue
  float : ℕ → PointValue
  double : ℕ → PointValue
  text : Text → PointValue
  bytes : List ℕ → PointValue
  date_time : ℕ → PointValue

pub data RawQuality : Type 0 where
  no_quality : RawQuality
  dnp_flags : ℕ → RawQuality
  iec104_qds : ℕ → RawQuality
  opc_ua_status_code : ℕ → RawQuality
  iec61850_quality : ℕ → RawQuality
  sparkplug_quality : Option ℕ → Bool → Bool → Bool → RawQuality
  cip_general_status : ℕ → RawQuality
  hart_field_device_status : ℕ → RawQuality
