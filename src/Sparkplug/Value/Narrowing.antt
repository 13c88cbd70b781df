-- ===== src/Sparkplug/Value/Narrowing.antt =====
-- Signed values on the wire and what the narrowing by datatype gives back.
use marlinspike_dpi.Prelude.{ℕ, ◌≡◌, false, some, ap, unwrap_or}
use marlinspike_dpi.Prelude.Int.{
  ℤ, IsWithin, to_wire, as_signed8_extended, as_signed16_extended, as_signed32, as_signed64,
}
use marlinspike_dpi.Sparkplug.Value.{
  Metric, int_value, long_value, data_type, int_point, long_point, value_point,
  metric_to_point_value, MetricValue,
}
use marlinspike_dpi.Bronze.{PointValue, int8, int16, int32, int64}

-- The four signed datatypes: their code, the end of their range, the wire value that carries a
-- number, and the point value that it stands for.
pub data Signed : Type 0 where
  w8 : Signed
  w16 : Signed
  w32 : Signed
  w64 : Signed

abbrev pub code_of : Signed → ℕ
code_of w8 = 1
code_of w16 = 2
code_of w32 = 3
code_of w64 = 4

abbrev pub range_end : Signed → ℕ
range_end w8 = 0x80
range_end w16 = 0x8000
range_end w32 = 0x80000000
range_end w64 = 0x8000000000000000

abbrev pub carried : Signed → ℤ → MetricValue
carried w64 z = long_value (to_wire 0x10000000000000000 z)
carried _ z = int_value (to_wire 0x100000000 z)

abbrev pub point : Signed → ℤ → PointValue
point w8 z = int8 z
point w16 z = int16 z
point w32 z = int32 z
point w64 z = int64 z

value_point-carried :
    (w : Signed) (z : ℤ)
    → IsWithin (range_end w) z
    → value_point (some (carried w z)) (data_type (some (code_of w))) ≡ point w z
unfolding value_point int_point long_point data_type
value_point-carried w8 z h = ap int8 (as_signed8_extended z h)
value_point-carried w16 z h = ap int16 (as_signed16_extended z h)
value_point-carried w32 z h = ap int32 (as_signed32 z h)
value_point-carried w64 z h = ap int64 (as_signed64 z h)

-- A signed number in the range of its declared datatype, carried sign-extended in the wire field,
-- is read back as that number, if the metric is not marked as null.
pub metric_to_point_value-carried :
    (w : Signed) (z : ℤ) (m : Metric)
    → IsWithin (range_end w) z
    → m.value ≡ some (carried w z)
    → m.datatype ≡ some (code_of w)
    → unwrap_or m.is_null false ≡ false
    → metric_to_point_value m ≡ point w z
unfolding metric_to_point_value
metric_to_point_value-carried w z m h value kind live =
    rw (live, value, kind) (value_point-carried w z h)
