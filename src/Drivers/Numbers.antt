-- ===== src/Drivers/Numbers.antt =====
-- mcudrivers/utils.py, over the numbers that Python's floats are.
use animacharacter_dev_src.Prelude.{ℤ, pos, Bool, Result, ok, ◌>>=◌, Exc, if◌then◌else◌}
use animacharacter_dev_src.Prelude.Int.{max_ℤ, min_ℤ, times_ℤ}

-- What the drivers use of floats: `of_int` is the float of an integer, `is_zero` is `x == 0`, and
-- `to_int` is int(x), which raises ValueError for nan and OverflowError for an infinity.
pub record Number (F : Type 0) : Type 0 where
  pub of_int : ℤ → F
  pub half : F
  pub lt_n : F → F → Bool
  pub add_n : F → F → F
  pub sub_n : F → F → F
  pub mul_n : F → F → F
  pub is_zero : F → Bool
  pub to_int : F → Result Exc ℤ

abbrev pub tobyte : ℤ → ℤ
tobyte x = min_ℤ (max_ℤ x (pos 0)) (pos 255)

module _ {F : Type 0} ⦃n : Number F⦄ where
  abbrev pub clamp : F → F → F → F
  clamp x lo hi = if n.lt_n x lo then lo else if n.lt_n hi x then hi else x

  unfoldable pub topwm8 : F → Result Exc ℤ
  topwm8 x = do i ← n.to_int x; ok (min_ℤ (max_ℤ (times_ℤ 255 i) (pos 0)) (pos 1))

  unfoldable pub topwm12 : F → Result Exc ℤ
  topwm12 x = do i ← n.to_int x; ok (min_ℤ (max_ℤ (times_ℤ 4095 i) (pos 0)) (pos 1))
