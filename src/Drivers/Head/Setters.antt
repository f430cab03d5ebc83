-- ===== src/Drivers/Head/Setters.antt =====
-- mcudrivers/head_driver.py: the methods of HeadMcuDriver that write a single axis, and lookat.
use animacharacter_dev_src.Prelude.{pos, Bool, [], ◌∷◌, if◌then◌else◌}
use animacharacter_dev_src.Drivers.Numbers.{Number}
use animacharacter_dev_src.Drivers.Head.{
  mouth, ear_l, ear_r, lid_l, lid_r, eyes_open, HeadMcuDriver, write_each, set_eyes,
}

-- what lookat uses of the module math and of the comparison of floats
pub record Trigonometry (F : Type 0) : Type 0 where
  pub sin : F → F
  pub cos : F → F
  pub atan2 : F → F → F
  pub degrees : F → F
  pub radians : F → F
  pub le_zero : F → Bool

module _ {F : Type 0} ⦃n : Number F⦄ where
  abbrev pub set_mouth : F → HeadMcuDriver F → HeadMcuDriver F
  set_mouth value = write_each ((mouth, value) ∷ [])

  abbrev pub set_left_ear : F → HeadMcuDriver F → HeadMcuDriver F
  set_left_ear value = write_each ((ear_l, value) ∷ [])

  abbrev pub set_right_ear : F → HeadMcuDriver F → HeadMcuDriver F
  set_right_ear value = write_each ((ear_r, value) ∷ [])

  abbrev pub set_lid_left : F → HeadMcuDriver F → HeadMcuDriver F
  set_lid_left value = write_each ((lid_l, value) ∷ [])

  abbrev pub set_lid_right : F → HeadMcuDriver F → HeadMcuDriver F
  set_lid_right value = write_each ((lid_r, value) ∷ [])

  -- `not closed` is a number, 0 or 1
  abbrev pub set_eyes_closed : Bool → HeadMcuDriver F → HeadMcuDriver F
  set_eyes_closed closed =
      write_each ((eyes_open, if closed then n.of_int (pos 0) else n.of_int (pos 1)) ∷ [])

  -- the yaw of an eye, of which `shift` adds or subtracts half the distance of the eyes
  unfoldable pub eye_yaw : Trigonometry F → (F → F → F) → F → F → F → F
  eye_yaw trig shift lateral_ang distance semi =
      let angle = n.mul_n lateral_ang (trig.radians (n.of_int (pos 1))) in
      trig.degrees (
        trig.atan2 (shift (n.mul_n distance (trig.sin angle)) semi)
          (n.mul_n distance (trig.cos angle)))

  unfoldable pub lookat : Trigonometry F → F → F → F → F → HeadMcuDriver F → HeadMcuDriver F
  lookat trig elevation_ang lateral_ang r semi_ipd_mm =
      let semi = if trig.le_zero semi_ipd_mm then n.of_int (pos 75) else semi_ipd_mm in
      let distance = n.mul_n (n.of_int (pos 10)) r in
      set_eyes elevation_ang (eye_yaw trig n.sub_n lateral_ang distance semi)
        (eye_yaw trig n.add_n lateral_ang distance semi)
