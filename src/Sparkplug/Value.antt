-- ===== src/Sparkplug/Value.antt =====
-- `src/sparkplug/value.rs`: metric values and qualities.
pub mod Narrowing
use marlinspike_dpi.Bronze.{
  PointValue, null, bool, int8, int16, int32, int64, uint8, uint16, uint32, uint64, float, double,
  text, bytes, date_time, RawQuality, no_quality, opc_ua_status_code, sparkplug_quality,
}
use marlinspike_dpi.Prelude.{
  ℕ, ◌%◌, ◌^◌, Bool, true, false, Option, none, some, List, [], ◌∷◌, if◌then◌else◌, eqb, leb,
  unwrap_or, position, get_elem?, ◌==◌, nat_eq, list_eq, ◌>>=◌,
}
use marlinspike_dpi.Prelude.Text.{Text, codes}
use marlinspike_dpi.Prelude.Int.{ℤ, as_signed}

-- A metric's value. Of the aggregates only the kind matters here, and floating-point numbers are
-- their bit patterns.
pub data MetricValue : Type 0 where
  int_value : ℕ → MetricValue
  long_value : ℕ → MetricValue
  float_value : ℕ → MetricValue
  double_value : ℕ → MetricValue
  boolean_value : Bool → MetricValue
  string_value : Text → MetricValue
  bytes_value : List ℕ → MetricValue
  dataset_value : MetricValue
  template_value : MetricValue
  extension_value : MetricValue

-- A property's value: the two kinds that are read, and the others.
pub data PropertyValue : Type 0 where
  int_property : ℕ → PropertyValue
  long_property : ℕ → PropertyValue
  other_property : PropertyValue

pub record PropertySet : Type 0 where
  pub keys : List Text
  pub values : List (Option PropertyValue)

-- The fields of a protobuf metric that the program reads.
pub record Metric : Type 0 where
  pub name : Option Text
  pub alias : Option ℕ
  pub timestamp : Option ℕ
  pub datatype : Option ℕ
  pub is_historical : Option Bool
  pub is_transient : Option Bool
  pub is_null : Option Bool
  pub properties : Option PropertySet
  pub value : Option MetricValue

-- `DataType::try_from`, then `unwrap_or(Unknown)`: the codes are 0 to 34, and 0 is unknown.
unfoldable pub data_type : Option ℕ → ℕ
data_type none = 0
data_type (some d) = if leb d 34 then d else 0

unfoldable pub int_point : ℕ → ℕ → PointValue
int_point v t =
    if eqb t 1
    then int8 (as_signed 8 v)
    else if eqb t 2
    then int16 (as_signed 16 v)
    else if eqb t 3
    then int32 (as_signed 32 v)
    else if eqb t 5
    then uint8 (v % 2 ^ 8)
    else if eqb t 6
    then uint16 (v % 2 ^ 16)
    else if eqb t 7
    then uint32 v
    else int32 (as_signed 32 v)

unfoldable pub long_point : ℕ → ℕ → PointValue
long_point v t =
    if eqb t 4
    then int64 (as_signed 64 v)
    else if eqb t 8
    then uint64 v
    else if eqb t 13
    then date_time v
    else int64 (as_signed 64 v)

unfoldable pub value_point : Option MetricValue → ℕ → PointValue
value_point (some (int_value v)) t = int_point v t
value_point (some (long_value v)) t = long_point v t
value_point (some (float_value v)) t = float v
value_point (some (double_value v)) t = double v
value_point (some (boolean_value v)) t = bool v
value_point (some (string_value v)) t = text v
value_point (some (bytes_value v)) t = bytes v
value_point (some dataset_value) t = null
value_point (some template_value) t = null
value_point (some extension_value) t = null
value_point none t = null

unfoldable pub metric_to_point_value : Metric → PointValue
metric_to_point_value metric =
    if unwrap_or metric.is_null false
    then null
    else value_point metric.value (data_type metric.datatype)

abbrev pub property_value : Option PropertyValue → Option ℕ
property_value (some (int_property v)) = some v
property_value (some (long_property v)) = some (v % 2 ^ 32)
property_value _ = none

-- The value at the place of the first key `Quality`, if it is there and is a number.
unfoldable pub extract_quality_property : PropertySet → Option ℕ
extract_quality_property props = do
  idx ← position (λ k. k == codes "Quality") props.keys
  value ← get_elem? props.values idx
  property_value value

unfoldable pub metric_to_raw_quality : Metric → RawQuality
metric_to_raw_quality metric =
    sparkplug_quality (metric.properties >>= extract_quality_property)
      (unwrap_or metric.is_historical false) (unwrap_or metric.is_transient false)
      (unwrap_or metric.is_null false)
