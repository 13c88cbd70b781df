-- ===== src/Bilgepump/Monitor/ParseIpv4.antt =====
-- `parse_ipv4` reads back what `format_ipv4` writes.
use marlinspike_dpi.Prelude.{
  ℕ, ◌<◌, ◌≡◌, refl, ◌∙◌, true, some, [], ◌∷◌, option_equal, option_equal_iff, nat_eq, option_eq,
  ap,
}
use marlinspike_dpi.Prelude.Split.{split, split-piece, split-last, is_free}
use marlinspike_dpi.Prelude.Text.{Ipv4}
use marlinspike_dpi.Prelude.Tables.{all_below, all_below→eq}
use marlinspike_dpi.Format.{decimal, format_ipv4}
use marlinspike_dpi.Bilgepump.Monitor.{parse_u8, digits_u8, parse_ipv4, parse_parts}

decimal-is_free : (b : ℕ) → b < 256 → is_free b'.' (decimal b) ≡ true
unfolding all_below decimal
decimal-is_free = all_below→eq 256 (λ b. is_free b'.' (decimal b)) refl

parse_u8-decimal : (b : ℕ) → b < 256 → parse_u8 (decimal b) ≡ some b
unfolding all_below decimal parse_u8 digits_u8
parse_u8-decimal b h =
    (option_equal_iff (parse_u8 (decimal b)) (some b)).0
      (all_below→eq 256 (λ x. option_equal (parse_u8 (decimal x)) (some x)) refl b h)

-- The octets of an address are bytes.
pub record IsOctets (a : Ipv4) : Type 0 where
  pub b0 : a.o0 < 256
  pub b1 : a.o1 < 256
  pub b2 : a.o2 < 256
  pub b3 : a.o3 < 256

split-format_ipv4 :
    (a : Ipv4)
    → IsOctets a
    → split b'.' (format_ipv4 a) ≡ decimal a.o0 ∷ decimal a.o1 ∷ decimal a.o2 ∷ decimal a.o3 ∷ []
unfolding format_ipv4
split-format_ipv4 a h =
    split-piece b'.' [] (decimal a.o0) _ (decimal-is_free a.o0 h.b0)
    ∙ ap (◌∷◌ (decimal a.o0)) (
        split-piece b'.' [] (decimal a.o1) _ (decimal-is_free a.o1 h.b1)
        ∙ ap (◌∷◌ (decimal a.o1)) (
            split-piece b'.' [] (decimal a.o2) _ (decimal-is_free a.o2 h.b2)
            ∙ ap (◌∷◌ (decimal a.o2))
                (split-last b'.' [] (decimal a.o3) (decimal-is_free a.o3 h.b3))))

-- The dotted text of every address is read back as that address.
pub parse_ipv4-format_ipv4 : (a : Ipv4) → IsOctets a → parse_ipv4 (format_ipv4 a) ≡ some a
unfolding parse_ipv4 parse_parts
parse_ipv4-format_ipv4 a h =
    rw
      (
        split-format_ipv4 a h,
        parse_u8-decimal a.o0 h.b0,
        parse_u8-decimal a.o1 h.b1,
        parse_u8-decimal a.o2 h.b2,
        parse_u8-decimal a.o3 h.b3,
      )
      refl
