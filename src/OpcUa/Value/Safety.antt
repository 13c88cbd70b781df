-- ===== src/OpcUa/Value/Safety.antt =====
-- The reads of variants and data values keep the cursor inside the message.
use marlinspike_dpi.Prelude.{eqb, ℕ, ◌%◌}
use marlinspike_dpi.OpcUa.Reader.{
  read_bool, read_i8, read_i16, read_u8, read_u16, read_i32, read_u32, read_i64, read_u64, read_f32,
  read_f64, read_string, read_bytes, read_byte_string, read_array_length, flag, optional,
}
use marlinspike_dpi.OpcUa.Reader.Follows.{
  IsSafe, stays, bind-IsSafe, map-IsSafe, if-IsSafe, optional-IsSafe, part-IsSafe, elements-IsSafe,
  read_bool-IsSafe, read_i8-IsSafe, read_i16-IsSafe, read_u8-IsSafe, read_u16-IsSafe,
  read_i32-IsSafe, read_u32-IsSafe, read_i64-IsSafe, read_u64-IsSafe, read_f32-IsSafe,
  read_f64-IsSafe, read_string-IsSafe, read_bytes-IsSafe, read_byte_string-IsSafe,
  read_array_length-IsSafe,
}
use marlinspike_dpi.OpcUa.Reader.Counts.{Counts, bind-Counts_first, read_u8-Counts}
use marlinspike_dpi.OpcUa.Value.{
  read_scalar, consume_array, read_variant, read_masked, read_data_value, read_wide,
}

read_wide-IsSafe : (type_id : ℕ) → IsSafe (read_wide type_id)
unfolding read_wide
read_wide-IsSafe type_id = if-IsSafe (eqb type_id 8) _ _ (map-IsSafe read_i64 _ read_i64-IsSafe) (
    if-IsSafe (eqb type_id 9) _ _ (map-IsSafe read_u64 _ read_u64-IsSafe) (
      if-IsSafe (eqb type_id 10) _ _ (map-IsSafe read_f32 _ read_f32-IsSafe) (
        if-IsSafe (eqb type_id 11) _ _ (map-IsSafe read_f64 _ read_f64-IsSafe) (
          if-IsSafe (eqb type_id 12) _ _ (map-IsSafe read_string _ read_string-IsSafe) (
            if-IsSafe (eqb type_id 13) _ _ (map-IsSafe read_i64 _ read_i64-IsSafe) (
              if-IsSafe (eqb type_id 14) _ _ (map-IsSafe (read_bytes 16) _ (read_bytes-IsSafe 16)) (
                if-IsSafe (eqb type_id 15) _ _
                  (map-IsSafe read_byte_string _ read_byte_string-IsSafe) stays)))))))

pub read_scalar-IsSafe : (type_id : ℕ) → IsSafe (read_scalar type_id)
unfolding read_scalar
read_scalar-IsSafe type_id = if-IsSafe (eqb type_id 0) _ _ stays (
    if-IsSafe (eqb type_id 1) _ _ (map-IsSafe read_bool _ read_bool-IsSafe) (
      if-IsSafe (eqb type_id 2) _ _ (map-IsSafe read_i8 _ read_i8-IsSafe) (
        if-IsSafe (eqb type_id 3) _ _ (map-IsSafe read_u8 _ read_u8-IsSafe) (
          if-IsSafe (eqb type_id 4) _ _ (map-IsSafe read_i16 _ read_i16-IsSafe) (
            if-IsSafe (eqb type_id 5) _ _ (map-IsSafe read_u16 _ read_u16-IsSafe) (
              if-IsSafe (eqb type_id 6) _ _ (map-IsSafe read_i32 _ read_i32-IsSafe) (
                if-IsSafe (eqb type_id 7) _ _ (map-IsSafe read_u32 _ read_u32-IsSafe)
                  (read_wide-IsSafe type_id))))))))

pub consume_array-IsSafe : (type_id : ℕ) → IsSafe (consume_array type_id)
unfolding consume_array
consume_array-IsSafe type_id =
    bind-IsSafe read_array_length _ read_array_length-IsSafe
      (λ len. elements-IsSafe (read_scalar type_id) len (read_scalar-IsSafe type_id))

pub read_variant-IsSafe : IsSafe read_variant
unfolding read_variant
read_variant-IsSafe = bind-IsSafe read_u8 _ read_u8-IsSafe (λ mask.
    if-IsSafe (flag mask 0x80) _ _
      (bind-IsSafe (consume_array (mask % 64)) _ (consume_array-IsSafe (mask % 64)) (λ values.
        map-IsSafe (optional (flag mask 0x40) (consume_array 6)) _
          (optional-IsSafe (flag mask 0x40) (consume_array 6) (consume_array-IsSafe 6))))
      (read_scalar-IsSafe (mask % 64)))

read_masked-IsSafe : (mask : ℕ) → IsSafe (read_masked mask)
unfolding read_masked
read_masked-IsSafe mask = part-IsSafe (flag mask 0x01) read_variant _ read_variant-IsSafe (λ value.
    part-IsSafe (flag mask 0x02) read_u32 _ read_u32-IsSafe (λ status.
      part-IsSafe (flag mask 0x04) read_i64 _ read_i64-IsSafe (λ source.
        part-IsSafe (flag mask 0x10) read_u16 _ read_u16-IsSafe (λ source_pico.
          part-IsSafe (flag mask 0x08) read_i64 _ read_i64-IsSafe (λ server.
            part-IsSafe (flag mask 0x20) read_u16 _ read_u16-IsSafe (λ server_pico. stays))))))

pub read_data_value-IsSafe : IsSafe read_data_value
unfolding read_data_value
read_data_value-IsSafe = bind-IsSafe read_u8 _ read_u8-IsSafe read_masked-IsSafe

-- Its mask takes a byte.
pub read_data_value-Counts : Counts (λ d. 1) read_data_value
unfolding read_data_value
read_data_value-Counts =
    bind-Counts_first 1 read_u8 _ read_u8-IsSafe read_u8-Counts read_masked-IsSafe
