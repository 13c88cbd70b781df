-- ===== src/Prelude/Text.antt =====
-- A Rust `String` is its bytes, `[u8; 4]` and `[u8; 6]` are records.
use Prim.Native.Nat.{ℕ}
use Prim.Native.Char.{code}
use Prim.Native.String.{String}
use mathlib.Core.Path.{◌≡◌}
use mathlib.Core.Logic.{◌↔◌}
use mathlib.Core.Bool.{Bool, true, ◌&&◌}
use mathlib.Core.List.{List, [], ◌∷◌}
use native.Mathlib.Omega.{arith}
use marlinspike_dpi.Prelude.Tests.{eqb}
use marlinspike_dpi.Prelude.Equality.{PartialEq}

abbrev pub Text : Type 0
Text = List ℕ

-- The bytes of an ASCII literal.
abbrev pub codes : String → Text
codes String.[] = []
codes (String.◌∷◌ c s) = code c ∷ codes s

pub record Ipv4 : Type 0 where
  pub o0 : ℕ
  pub o1 : ℕ
  pub o2 : ℕ
  pub o3 : ℕ

pub record Mac : Type 0 where
  pub o0 : ℕ
  pub o1 : ℕ
  pub o2 : ℕ
  pub o3 : ℕ
  pub o4 : ℕ
  pub o5 : ℕ

abbrev pub ipv4_equal : Ipv4 → Ipv4 → Bool
ipv4_equal a b = eqb a.o0 b.o0 && eqb a.o1 b.o1 && eqb a.o2 b.o2 && eqb a.o3 b.o3

pub ipv4_equal_iff : (a b : Ipv4) → (ipv4_equal a b ≡ true) ↔ (a ≡ b)
ipv4_equal_iff a b = ground arith

instance abbrev pub ipv4_eq : PartialEq Ipv4
ipv4_eq = record { equal = ipv4_equal; equal_iff = ipv4_equal_iff }

abbrev pub mac_equal : Mac → Mac → Bool
mac_equal a b =
    eqb a.o0 b.o0
    && eqb a.o1 b.o1
    && eqb a.o2 b.o2
    && eqb a.o3 b.o3
    && eqb a.o4 b.o4
    && eqb a.o5 b.o5

pub mac_equal_iff : (a b : Mac) → (mac_equal a b ≡ true) ↔ (a ≡ b)
mac_equal_iff a b = ground arith

instance abbrev pub mac_eq : PartialEq Mac
mac_eq = record { equal = mac_equal; equal_iff = mac_equal_iff }
