-- ===== src/OpcUa/Value.antt =====
-- `src/opc_ua/datetime.rs`, `variant.rs` and `data_value.rs`: time stamps, variants and data values.
pub mod RoundTrip
pub mod Stamped
pub mod Unread
pub mod Truncated
pub mod Safety
use marlinspike_dpi.Prelude.{
  ℕ, ◌-◌, ◌/◌, ◌%◌, Bool, true, false, Option, none, some, List, if◌then◌else◌, eqb, ltb, unwrap_or,
  ◌∷◌, [],
}
use marlinspike_dpi.Prelude.Int.{ℤ, pos, negsuc}
use marlinspike_dpi.Bronze.{
  PointValue, null, bool, int8, int16, int32, int64, uint8, uint16, uint32, uint64, float, double,
  text, bytes, date_time, RawQuality, opc_ua_status_code,
}
use marlinspike_dpi.OpcUa.Reader.{
  Read, pure, ◌>>=◌, read_u8, read_bool, read_i8, read_i16, read_u16, read_i32, read_u32, read_i64,
  read_u64, read_f32, read_f64, read_string, read_bytes, read_byte_string, read_array_length, flag,
  optional, elements,
}

abbrev pub ticks_1601_to_1970 : ℕ
ticks_1601_to_1970 = 116_444_736_000_000_000

-- A negative count of ticks either underflows in the subtraction or gives a negative difference.
unfoldable pub opcua_datetime_to_unix_us : ℤ → Option ℕ
opcua_datetime_to_unix_us (pos ticks) =
    if eqb ticks 0
    then none
    else if ltb ticks ticks_1601_to_1970
    then none
    else some ((ticks - ticks_1601_to_1970) / 10)
opcua_datetime_to_unix_us (negsuc n) = none

abbrev pub text_point : Option (List ℕ) → PointValue
text_point none = null
text_point (some s) = text s

abbrev pub bytes_point : Option (List ℕ) → PointValue
bytes_point none = null
bytes_point (some b) = bytes b

abbrev pub date_point : Option ℕ → PointValue
date_point none = null
date_point (some us) = date_time us

-- The kinds from 8 on; one that is not known is null, and its bytes are not read.
unfoldable pub read_wide : ℕ → Read PointValue
read_wide type_id =
    if eqb type_id 8
    then read_i64 >>= (λ v. pure (int64 v))
    else if eqb type_id 9
    then read_u64 >>= (λ v. pure (uint64 v))
    else if eqb type_id 10
    then read_f32 >>= (λ v. pure (float v))
    else if eqb type_id 11
    then read_f64 >>= (λ v. pure (double v))
    else if eqb type_id 12
    then read_string >>= (λ s. pure (text_point s))
    else if eqb type_id 13
    then read_i64 >>= (λ ticks. pure (date_point (opcua_datetime_to_unix_us ticks)))
    else if eqb type_id 14
    then read_bytes 16 >>= (λ guid. pure (bytes guid))
    else if eqb type_id 15
    then read_byte_string >>= (λ b. pure (bytes_point b))
    else pure null

unfoldable pub read_scalar : ℕ → Read PointValue
read_scalar type_id =
    if eqb type_id 0
    then pure null
    else if eqb type_id 1
    then read_bool >>= (λ v. pure (bool v))
    else if eqb type_id 2
    then read_i8 >>= (λ v. pure (int8 v))
    else if eqb type_id 3
    then read_u8 >>= (λ v. pure (uint8 v))
    else if eqb type_id 4
    then read_i16 >>= (λ v. pure (int16 v))
    else if eqb type_id 5
    then read_u16 >>= (λ v. pure (uint16 v))
    else if eqb type_id 6
    then read_i32 >>= (λ v. pure (int32 v))
    else if eqb type_id 7
    then read_u32 >>= (λ v. pure (uint32 v))
    else read_wide type_id

unfoldable pub consume_array : ℕ → Read (List PointValue)
consume_array type_id = read_array_length >>= elements (read_scalar type_id)

-- The low six bits are the kind, the high two announce an array and its dimensions.
unfoldable pub read_variant : Read PointValue
read_variant = read_u8 >>= (λ mask.
    if flag mask 0x80
    then consume_array (mask % 64)
      >>= (λ values. optional (flag mask 0x40) (consume_array 6) >>= (λ dims. pure null))
    else read_scalar (mask % 64))

pub record DecodedDataValue : Type 0 where
  pub value : PointValue
  pub quality : RawQuality
  pub source_ts : Option ℕ
  pub server_ts : Option ℕ

abbrev pub time_stamp : Option ℤ → Option ℕ
time_stamp none = none
time_stamp (some ticks) = opcua_datetime_to_unix_us ticks

-- What follows the mask.
unfoldable pub read_masked : ℕ → Read DecodedDataValue
read_masked mask = optional (flag mask 0x01) read_variant >>= (λ value.
    optional (flag mask 0x02) read_u32 >>= (λ status.
      optional (flag mask 0x04) read_i64 >>= (λ source.
        optional (flag mask 0x10) read_u16 >>= (λ source_pico.
          optional (flag mask 0x08) read_i64 >>= (λ server.
            optional (flag mask 0x20) read_u16 >>= (λ server_pico. pure (record {
              value = unwrap_or value null;
              quality = opc_ua_status_code (unwrap_or status 0);
              source_ts = time_stamp source;
              server_ts = time_stamp server;
            })))))))

unfoldable pub read_data_value : Read DecodedDataValue
read_data_value = read_u8 >>= read_masked
