-- ===== src/OpcUa/Value/Truncated.antt =====
-- A data value that the message cuts short is refused.
use marlinspike_dpi.Bronze.{null}
use marlinspike_dpi.Prelude.{
  ℕ, ◌<◌, ◌%◌, ◌≡◌, sym, ap, ◌∙◌, eqb, Bool, Option, List, [], length, take, drop, take-append-drop,
  length-take, arith, false, inl, inr,
}
use mathlib.Core.List.{append-nil}
use marlinspike_dpi.OpcUa.Reader.{
  new, Read, ◌>>=◌, flag, optional, read_array_length, read_bool, read_byte_string, read_bytes,
  read_f32, read_f64, read_i16, read_i32, read_i64, read_i8, read_string, read_u16, read_u32,
  read_u64, read_u8,
}
use marlinspike_dpi.OpcUa.Reader.Follows.{
  IsSafe, optional-IsSafe, read_array_length-IsSafe, read_bool-IsSafe, read_byte_string-IsSafe,
  read_bytes-IsSafe, read_f32-IsSafe, read_f64-IsSafe, read_i16-IsSafe, read_i32-IsSafe,
  read_i64-IsSafe, read_i8-IsSafe, read_string-IsSafe, read_u16-IsSafe, read_u32-IsSafe,
  read_u64-IsSafe, read_u8-IsSafe,
}
use marlinspike_dpi.OpcUa.Reader.Counts.{is_ok, Result-cases}
use marlinspike_dpi.OpcUa.Reader.Extends.{
  Extends, pure-Extends, bind-Extends, map-Extends, if-Extends, optional-Extends, elements-Extends,
  read_array_length-Extends, read_bool-Extends, read_byte_string-Extends, read_bytes-Extends,
  read_f32-Extends, read_f64-Extends, read_i16-Extends, read_i32-Extends, read_i64-Extends,
  read_i8-Extends, read_string-Extends, read_u16-Extends, read_u32-Extends, read_u64-Extends,
  read_u8-Extends,
}
use marlinspike_dpi.OpcUa.Value.{
  read_scalar, consume_array, read_variant, read_masked, read_data_value, read_wide,
}
use marlinspike_dpi.OpcUa.Value.Safety.{
  read_scalar-IsSafe, consume_array-IsSafe, read_variant-IsSafe, read_data_value-IsSafe,
}
use marlinspike_dpi.OpcUa.Value.Stamped.{Parts, IsSent, data_value_bytes, read_data_value-bytes}

read_wide-Extends : (type_id : ℕ) → Extends (read_wide type_id)
unfolding read_wide
read_wide-Extends type_id =
    if-Extends (eqb type_id 8) _ _ (map-Extends read_i64 _ read_i64-IsSafe read_i64-Extends) (
      if-Extends (eqb type_id 9) _ _ (map-Extends read_u64 _ read_u64-IsSafe read_u64-Extends) (
        if-Extends (eqb type_id 10) _ _ (map-Extends read_f32 _ read_f32-IsSafe read_f32-Extends) (
          if-Extends (eqb type_id 11) _ _ (map-Extends read_f64 _ read_f64-IsSafe read_f64-Extends)
            (if-Extends (eqb type_id 12) _ _
              (map-Extends read_string _ read_string-IsSafe read_string-Extends)
              (if-Extends (eqb type_id 13) _ _
                (map-Extends read_i64 _ read_i64-IsSafe read_i64-Extends)
                (if-Extends (eqb type_id 14) _ _
                  (map-Extends (read_bytes 16) _ (read_bytes-IsSafe 16) (read_bytes-Extends 16))
                  (if-Extends (eqb type_id 15) _ _
                    (map-Extends read_byte_string _ read_byte_string-IsSafe
                      read_byte_string-Extends)
                    (pure-Extends null))))))))

read_scalar-Extends : (type_id : ℕ) → Extends (read_scalar type_id)
unfolding read_scalar
read_scalar-Extends type_id = if-Extends (eqb type_id 0) _ _ (pure-Extends null) (
    if-Extends (eqb type_id 1) _ _ (map-Extends read_bool _ read_bool-IsSafe read_bool-Extends) (
      if-Extends (eqb type_id 2) _ _ (map-Extends read_i8 _ read_i8-IsSafe read_i8-Extends) (
        if-Extends (eqb type_id 3) _ _ (map-Extends read_u8 _ read_u8-IsSafe read_u8-Extends) (
          if-Extends (eqb type_id 4) _ _ (map-Extends read_i16 _ read_i16-IsSafe read_i16-Extends) (
            if-Extends (eqb type_id 5) _ _ (map-Extends read_u16 _ read_u16-IsSafe read_u16-Extends)
              (if-Extends (eqb type_id 6) _ _
                (map-Extends read_i32 _ read_i32-IsSafe read_i32-Extends)
                (if-Extends (eqb type_id 7) _ _
                  (map-Extends read_u32 _ read_u32-IsSafe read_u32-Extends)
                  (read_wide-Extends type_id))))))))

consume_array-Extends : (type_id : ℕ) → Extends (consume_array type_id)
unfolding consume_array
consume_array-Extends type_id =
    bind-Extends read_array_length _ read_array_length-IsSafe read_array_length-Extends (λ len.
      elements-Extends (read_scalar type_id) len (read_scalar-IsSafe type_id)
        (read_scalar-Extends type_id))

read_variant-Extends : Extends read_variant
unfolding read_variant
read_variant-Extends = bind-Extends read_u8 _ read_u8-IsSafe read_u8-Extends (λ mask.
    if-Extends (flag mask 0x80) _ _
      (bind-Extends (consume_array (mask % 64)) _ (consume_array-IsSafe (mask % 64))
        (consume_array-Extends (mask % 64))
        (λ values.
          map-Extends (optional (flag mask 0x40) (consume_array 6)) _
            (optional-IsSafe (flag mask 0x40) (consume_array 6) (consume_array-IsSafe 6))
            (optional-Extends (flag mask 0x40) (consume_array 6) (consume_array-IsSafe 6)
              (consume_array-Extends 6))))
      (read_scalar-Extends (mask % 64)))

-- A part under a flag, then the others.
part-Extends :
    {A B : Type 0} (b : Bool) (m : Read A) (f : Option A → Read B)
    → IsSafe m
    → Extends m
    → ((o : Option A) → Extends (f o))
    → Extends (optional b m >>= f)
part-Extends b m f s x g =
    bind-Extends (optional b m) f (optional-IsSafe b m s) (optional-Extends b m s x) g

read_masked-Extends : (mask : ℕ) → Extends (read_masked mask)
unfolding read_masked
read_masked-Extends mask =
    part-Extends (flag mask 0x01) read_variant _ read_variant-IsSafe read_variant-Extends (λ value.
      part-Extends (flag mask 0x02) read_u32 _ read_u32-IsSafe read_u32-Extends (λ status.
        part-Extends (flag mask 0x04) read_i64 _ read_i64-IsSafe read_i64-Extends (λ source.
          part-Extends (flag mask 0x10) read_u16 _ read_u16-IsSafe read_u16-Extends (λ source_pico.
            part-Extends (flag mask 0x08) read_i64 _ read_i64-IsSafe read_i64-Extends (λ server.
              part-Extends (flag mask 0x20) read_u16 _ read_u16-IsSafe read_u16-Extends
                (λ server_pico. pure-Extends _))))))

pub read_data_value-Extends : Extends read_data_value
unfolding read_data_value
read_data_value-Extends = bind-Extends read_u8 _ read_u8-IsSafe read_u8-Extends read_masked-Extends

-- The wire form of a data value without its last bytes, however many of them, is refused, and never
-- read as another value: for the parts that `IsSent` admits, no proper prefix of it is a success.
pub truncated_refused :
    (p : Parts) (n : ℕ)
    → IsSent p
    → n < length (data_value_bytes p)
    → is_ok (read_data_value (new (take n (data_value_bytes p)))).0 ≡ false
truncated_refused p n sent short =
    elim (Result-cases (read_data_value (new (take n (data_value_bytes p)))).0) [
      | inr (e, q) ↦ ap is_ok q
      | inl (a, q) ↦
          let bytes = data_value_bytes p in
          let start = new (take n bytes) in
          let longer = read_data_value-Extends start (drop n bytes) a (omega arith) q in
          let whole = read_data_value-bytes p [] [] sent in
          let ends = read_data_value-IsSafe start (omega arith) in
          let same =
            ap (λ (x : List ℕ). (read_data_value (new x)).1.position)
              (take-append-drop n bytes ∙ sym (append-nil bytes)) in
          absurd (
            omega (
              arith,
              short,
              same,
              ap (λ x. x.1.position) longer,
              ap (λ x. x.1.position) whole,
              ends.inside,
              ap length ends.same,
              length-take n bytes,
            ))
    ]
