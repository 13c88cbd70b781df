-- ===== src/Prelude/Ticks.antt =====
-- A clock that counts seconds from the start of time, for tests: the laws of `IsClock` can be met.
use Prim.Native.Nat.{ℕ, ◌-◌}
use mathlib.Core.Path.{refl}
use native.Mathlib.Omega.{arith}
use marlinspike_dpi.Prelude.Tests.{ltb}
use marlinspike_dpi.Prelude.Clock.{Clock, IsClock}

instance abbrev pub ticks : Clock ℕ
ticks = record {
  lt = ltb;
  minus_secs = λ a secs. a - secs;
  elapsed_over = λ now then_ secs. ltb then_ (now - secs);
  elapsed_under = λ now then_ secs. ltb (now - then_) secs;
}

pub ticks-IsClock : IsClock ticks
ticks-IsClock = record {
  irrefl = λ a. ground arith;
  trans = λ a b c h k. ground arith;
  minus-le = λ a secs h. ground arith;
  minus_mono = λ a b secs h. ground arith;
  over_iff = λ now then_ secs. refl;
}
