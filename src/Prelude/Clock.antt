-- ===== src/Prelude/Clock.antt =====
-- `DateTime<Utc>` and `Duration` of the crate chrono, as far as the source uses them.
use Prim.Native.Nat.{ℕ, ◌≤◌}
use mathlib.Core.Path.{◌≡◌}
use mathlib.Core.Bool.{Bool, false}

pub record Clock (Time : Type 0) : Type 0 where
  -- `a < b`
  pub lt : Time → Time → Bool
  -- `now - Duration::seconds(secs as i64)`
  pub minus_secs : Time → ℕ → Time
  -- `(now - then) > Duration::seconds(secs as i64)`
  pub elapsed_over : Time → Time → ℕ → Bool
  -- `(now - then) < Duration::seconds(secs as i64)`
  pub elapsed_under : Time → Time → ℕ → Bool

module _ {Time : Type 0} ⦃clock : Clock Time⦄ where
  abbrev pub before : Time → Time → Bool
  before = clock.lt

  abbrev pub minus_secs : Time → ℕ → Time
  minus_secs = clock.minus_secs

  abbrev pub elapsed_over : Time → Time → ℕ → Bool
  elapsed_over = clock.elapsed_over

  abbrev pub elapsed_under : Time → Time → ℕ → Bool
  elapsed_under = clock.elapsed_under

  -- `a <= b`
  abbrev pub NotAfter : Time → Time → Type 0
  NotAfter a b = before b a ≡ false

-- `i64::MAX / 1000`, the most seconds that a `Duration` holds.
abbrev pub max_secs : ℕ
max_secs = 9_223_372_036_854_775

-- The documented order and arithmetic of `DateTime`.
pub record IsClock {Time : Type 0} (clock : Clock Time) : Type 0 where
  pub irrefl : (a : Time) → clock.lt a a ≡ false
  pub trans : (a b c : Time) → clock.lt b a ≡ false → clock.lt c b ≡ false → clock.lt c a ≡ false
  pub minus-le :
      (a : Time) (secs : ℕ) → secs ≤ max_secs → clock.lt a (clock.minus_secs a secs) ≡ false
  pub minus_mono :
      (a b : Time) (secs : ℕ)
      → clock.lt b a ≡ false
      → clock.lt (clock.minus_secs b secs) (clock.minus_secs a secs) ≡ false
  pub over_iff :
      (now then_ : Time) (secs : ℕ)
      → clock.elapsed_over now then_ secs ≡ clock.lt then_ (clock.minus_secs now secs)
