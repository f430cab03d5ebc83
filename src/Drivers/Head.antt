-- ===== src/Drivers/Head.antt =====
-- mcudrivers/head_driver.py: the state of HeadMcuDriver and write, all of whose changes are made
-- under the lock. The last packets that the microcontroller got are kept as well.
pub mod Flush
pub mod Packed
pub mod Shown
pub mod Runs
pub mod Ranges
pub mod Faults
pub mod LateWrites
pub mod Setters
use animacharacter_dev_src.Prelude.{
  ℕ, ℤ, pos, negsuc, Bool, not, true, false, ◌||◌, Option, none, some, Result, ok, raised, ◌>>=◌,
  Exc, List, [], ◌∷◌, if◌then◌else◌,
}
use animacharacter_dev_src.Prelude.Bytes.{Bytes}
use mathlib.Core.List.{replicate}
use animacharacter_dev_src.Prelude.Int.{neg_ℤ}
use animacharacter_dev_src.Drivers.Numbers.{Number, clamp, topwm8, topwm12}

pub data Axis : Type 0 where
  led_r led_g led_b led_l1 led_l2 : Axis
  mouth ear_l ear_r neck_pitch neck_tilt : Axis
  eyes_pitch eye_l eye_r lid_l lid_r eyes_open : Axis

pub data WriteOutcome : Type 0 where
  written write_error : WriteOutcome

pub record Leds : Type 0 where
  pub red : ℤ
  pub green : ℤ
  pub blue : ℤ
  pub ring_1 : ℤ
  pub ring_2 : ℤ

pub record Servos (F : Type 0) : Type 0 where
  pub mouth_at : F
  pub ear_left : F
  pub ear_right : F
  pub tilt : F
  pub pitch : F
  pub eye_left : F
  pub eye_right : F
  pub eyes_at : F
  pub lid_left : F
  pub lid_right : F
  pub open_factor : F

pub record HeadMcuDriver (F : Type 0) : Type 0 where
  pub leds : Leds
  pub servos : Servos F
  pub mp_dirty : Bool
  pub leds_dirty : Bool
  pub motion_buffer : Bytes
  pub leds_buffer : Bytes
  pub initialized : Bool
  pub shown_motion : Option Bytes
  pub shown_leds : Option Bytes

abbrev pub initial_leds : Leds
initial_leds = record { red = pos 0; green = pos 0; blue = pos 0; ring_1 = pos 0; ring_2 = pos 0 }

-- the set _LED_AXIS
abbrev pub is_led : Axis → Bool
is_led led_r = true
is_led led_g = true
is_led led_b = true
is_led led_l1 = true
is_led led_l2 = true
is_led _ = false

module _ {F : Type 0} ⦃n : Number F⦄ where
  abbrev pub initial_servos : Servos F
  initial_servos = record {
    mouth_at = n.of_int (pos 1);
    ear_left = n.of_int (pos 0);
    ear_right = n.of_int (pos 0);
    tilt = n.of_int (pos 0);
    pitch = n.of_int (pos 0);
    eye_left = n.of_int (pos 0);
    eye_right = n.of_int (pos 0);
    eyes_at = n.of_int (pos 0);
    lid_left = n.of_int (pos 20);
    lid_right = n.of_int (pos 20);
    open_factor = n.of_int (pos 1);
  }

  -- HeadMcuDriver(serial_port)
  abbrev pub new_head : HeadMcuDriver F
  new_head = record {
    leds = initial_leds;
    servos = initial_servos;
    mp_dirty = false;
    leds_dirty = false;
    motion_buffer = replicate 15 0;
    leds_buffer = replicate 10 0;
    initialized = false;
    shown_motion = none;
    shown_leds = none;
  }

  abbrev pub clamp_unit : F → F
  clamp_unit val = clamp val (n.of_int (pos 0)) (n.of_int (pos 1))

  abbrev pub clamp_sym : ℕ → F → F
  clamp_sym range val = clamp val (n.of_int (neg_ℤ (pos range))) (n.of_int (pos range))

  abbrev pub clamp_lid : F → F
  clamp_lid val = clamp (n.mul_n val n.half) (n.of_int (pos 0)) (n.of_int (pos 60))

  abbrev pub with_servos : HeadMcuDriver F → Servos F → Result Exc (HeadMcuDriver F)
  with_servos d servos = ok (record d { servos = servos })

  abbrev pub with_led : HeadMcuDriver F → (ℤ → Leds) → Result Exc ℤ → Result Exc (HeadMcuDriver F)
  with_led d leds duty = do v ← duty; ok (record d { leds = leds v })

  -- _write_axis up to _mark_dirty
  unfoldable pub set_axis : Axis → F → HeadMcuDriver F → Result Exc (HeadMcuDriver F)
  set_axis led_r val d = with_led d (λ v. record d.leds { red = v }) (topwm12 val)
  set_axis led_g val d = with_led d (λ v. record d.leds { green = v }) (topwm12 val)
  set_axis led_b val d = with_led d (λ v. record d.leds { blue = v }) (topwm12 val)
  set_axis led_l1 val d = with_led d (λ v. record d.leds { ring_1 = v }) (topwm8 val)
  set_axis led_l2 val d = with_led d (λ v. record d.leds { ring_2 = v }) (topwm8 val)
  set_axis mouth val d = with_servos d (record d.servos { mouth_at = clamp_unit val })
  set_axis ear_l val d = with_servos d (record d.servos { ear_left = clamp_sym 1 val })
  set_axis ear_r val d = with_servos d (record d.servos { ear_right = clamp_sym 1 val })
  set_axis neck_tilt val d = with_servos d (record d.servos { tilt = clamp_sym 1 val })
  set_axis neck_pitch val d = with_servos d (record d.servos { pitch = clamp_sym 1 val })
  set_axis eye_l val d = with_servos d (record d.servos { eye_left = clamp_sym 60 val })
  set_axis eye_r val d = with_servos d (record d.servos { eye_right = clamp_sym 60 val })
  set_axis eyes_pitch val d = with_servos d (record d.servos { eyes_at = clamp_sym 30 val })
  set_axis lid_l val d = with_servos d (record d.servos { lid_left = clamp_lid val })
  set_axis lid_r val d = with_servos d (record d.servos { lid_right = clamp_lid val })
  set_axis eyes_open val d = with_servos d (record d.servos {
    open_factor = if n.is_zero val then n.of_int (pos 0) else n.of_int (pos 1);
  })

  unfoldable pub mark_dirty : Axis → HeadMcuDriver F → HeadMcuDriver F
  mark_dirty axis d = record d {
    leds_dirty = d.leds_dirty || is_led axis;
    mp_dirty = d.mp_dirty || not (is_led axis);
  }

  unfoldable pub write_axis : Axis → F → HeadMcuDriver F → Result Exc (HeadMcuDriver F)
  write_axis axis val d = do e ← set_axis axis val d; ok (mark_dirty axis e)

  -- `except Exception: return WriteOutcome.ERROR`
  unfoldable pub write_outcome :
      HeadMcuDriver F → Result Exc (HeadMcuDriver F) → HeadMcuDriver F × WriteOutcome
  write_outcome d (ok e) = (e, written)
  write_outcome d (raised x) = (d, write_error)

  unfoldable pub write : Axis → F → HeadMcuDriver F → HeadMcuDriver F × WriteOutcome
  write axis val d = write_outcome d (write_axis axis val d)

  -- set_neck_rotation, set_eyes, set_eyelids, set_rgb and set_iris_leds, of which each makes one
  -- write after another
  unfoldable pub write_each : List (Axis × F) → HeadMcuDriver F → HeadMcuDriver F
  write_each [] d = d
  write_each ((axis, val) ∷ writes) d = write_each writes (write axis val d).0

  abbrev pub set_neck_rotation : F → F → HeadMcuDriver F → HeadMcuDriver F
  set_neck_rotation tilt pitch = write_each ((neck_tilt, tilt) ∷ (neck_pitch, pitch) ∷ [])

  abbrev pub set_eyes : F → F → F → HeadMcuDriver F → HeadMcuDriver F
  set_eyes pitch yaw_left yaw_right =
      write_each ((eyes_pitch, pitch) ∷ (eye_l, yaw_left) ∷ (eye_r, yaw_right) ∷ [])

  abbrev pub set_eyelids : F → F → HeadMcuDriver F → HeadMcuDriver F
  set_eyelids left right = write_each ((lid_l, left) ∷ (lid_r, right) ∷ [])

  abbrev pub set_rgb : F → F → F → HeadMcuDriver F → HeadMcuDriver F
  set_rgb r g b = write_each ((led_r, r) ∷ (led_g, g) ∷ (led_b, b) ∷ [])

  abbrev pub set_iris_leds : F → F → HeadMcuDriver F → HeadMcuDriver F
  set_iris_leds l1 l2 = write_each ((led_l1, l1) ∷ (led_l2, l2) ∷ [])
