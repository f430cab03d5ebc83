-- ===== src/Prelude/Ticks.antt =====
-- A value for the interface of floats, for tests and instances of theorems: whole numbers of ticks,
-- and infinity.
use Prim.Native.Nat.{ℕ, ◌+◌, ◌-◌}
use mathlib.Core.Path.{◌≡◌}
use mathlib.Core.Bool.{Bool, true, false, not}
use native.Mathlib.Omega.{arith}
use animacharacter_dev_src.Prelude.Tests.{leb, ◌==◌}
use animacharacter_dev_src.Prelude.Floats.{Float}

pub data Ticks : Type 0 where
  finite : ℕ → Ticks
  infinite : Ticks

abbrev add_ticks : Ticks → Ticks → Ticks
add_ticks (finite a) (finite b) = finite (a + b)
add_ticks _ _ = infinite

abbrev sub_ticks : Ticks → Ticks → Ticks
sub_ticks (finite a) (finite b) = finite (a - b)
sub_ticks _ _ = infinite

abbrev le_ticks : Ticks → Ticks → Bool
le_ticks _ infinite = true
le_ticks (finite a) (finite b) = leb a b
le_ticks infinite (finite b) = false

abbrev eq_ticks : Ticks → Ticks → Bool
eq_ticks (finite a) (finite b) = a == b
eq_ticks infinite infinite = true
eq_ticks _ _ = false

instance abbrev pub ticks_float : Float Ticks
ticks_float = record {
  zero_f = finite 0;
  inf = infinite;
  add_f = add_ticks;
  sub_f = sub_ticks;
  lt_f = λ a b. not (le_ticks b a);
  le_f = le_ticks;
  eq_f = eq_ticks;
}

pub eq_ticks_sound : (a b : Ticks) → eq_ticks a b ≡ true → a ≡ b
eq_ticks_sound a b h = ground arith
