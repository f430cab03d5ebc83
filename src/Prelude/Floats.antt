-- ===== src/Prelude/Floats.antt =====
-- Python's floats are not implemented here: the code uses their type and operations through this
-- interface (`inf` is math.inf), and a theorem says as a hypothesis which law of theirs it needs.
use mathlib.Core.Bool.{Bool}

pub record Float (F : Type 0) : Type 0 where
  pub zero_f : F
  pub inf : F
  pub add_f : F → F → F
  pub sub_f : F → F → F
  pub lt_f : F → F → Bool
  pub le_f : F → F → Bool
  pub eq_f : F → F → Bool
