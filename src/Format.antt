-- ===== src/Format.antt =====
-- src/registry.rs: `format_mac` and `format_ipv4`, with the `format!` directives that they use.
use marlinspike_dpi.Prelude.{ℕ, ◌+◌, ◌-◌, ◌/◌, ◌%◌, ltb, leb, [], ◌∷◌, ◌++◌, if◌then◌else◌, ◌&&◌}
use marlinspike_dpi.Prelude.Text.{Text, Mac, Ipv4}

abbrev pub hex_digit : ℕ → ℕ
hex_digit n = if ltb n 10 then b'0' + n else b'a' + (n - 10)

-- `{:02x}` of a byte
unfoldable pub hex2 : ℕ → Text
hex2 b = hex_digit (b / 16) ∷ hex_digit (b % 16) ∷ []

-- `{}` of a `u8`
unfoldable pub decimal : ℕ → Text
decimal b =
    if ltb b 10
    then (b'0' + b) ∷ []
    else if ltb b 100
    then (b'0' + b / 10) ∷ (b'0' + b % 10) ∷ []
    else (b'0' + b / 100) ∷ (b'0' + b / 10 % 10) ∷ (b'0' + b % 10) ∷ []

unfoldable pub format_mac : Mac → Text
format_mac m =
    hex2 m.o0
    ++ (b':' ∷ hex2 m.o1
        ++ (b':' ∷ hex2 m.o2 ++ (b':' ∷ hex2 m.o3 ++ (b':' ∷ hex2 m.o4 ++ (b':' ∷ hex2 m.o5)))))

unfoldable pub format_ipv4 : Ipv4 → Text
format_ipv4 a =
    decimal a.o0 ++ (b'.' ∷ decimal a.o1 ++ (b'.' ∷ decimal a.o2 ++ (b'.' ∷ decimal a.o3)))

-- `str::eq_ignore_ascii_case` compares after this.
abbrev pub to_ascii_lowercase : ℕ → ℕ
to_ascii_lowercase c = if leb b'A' c && leb c b'Z' then c + 32 else c
