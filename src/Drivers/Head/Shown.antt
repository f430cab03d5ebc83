-- ===== src/Drivers/Head/Shown.antt =====
-- What the microcontroller of mcudrivers/head_driver.py shows after any calls.
use animacharacter_dev_src.Prelude.{
  ℤ, ◌≡◌, refl, ◌⊎◌, inl, inr, true, false, ◌||◌, Option, none, some, Result, ok, raised, ◌>>=◌,
  Exc,
}
use animacharacter_dev_src.Prelude.Bytes.{Bytes}
use mathlib.Core.Bool.{or-true, or-false}
use animacharacter_dev_src.Drivers.Numbers.{Number, topwm8, topwm12}
use animacharacter_dev_src.Drivers.Head.{
  Axis, led_r, led_g, led_b, led_l1, led_l2, mouth, ear_l, ear_r, neck_tilt, neck_pitch, eyes_pitch,
  eye_l, eye_r, lid_l, lid_r, eyes_open, Leds, Servos, HeadMcuDriver, is_led, initial_leds,
  initial_servos, with_led, set_axis, mark_dirty, write_axis, write_outcome, write,
}
use animacharacter_dev_src.Drivers.Head.Packed.{
  IsPart, part_packed, motion_packet, pack_dirty-parts, send_packets-parts, flush_keeps,
}
use animacharacter_dev_src.Drivers.Head.Flush.{
  Reply, delivered, lost, broken, neck_left, neck_right, pack_leds, in_buffers, pack_dirty,
  send_motion, send_leds, packets_sent, flush_packed, flush,
}

module _ {F : Type 0} ⦃n : Number F⦄ where
  -- What a write does to the state: nothing, or a part is new and dirty.
  pub data IsWrite (d : HeadMcuDriver F) : HeadMcuDriver F → Type 0 where
    refused : IsWrite d d
    servo :
        (s : Servos F)
        → IsWrite d (record d {
          servos = s;
          leds_dirty = d.leds_dirty || false;
          mp_dirty = d.mp_dirty || true;
        })
    led :
        (l : Leds)
        → IsWrite d (record d {
          leds = l;
          leds_dirty = d.leds_dirty || true;
          mp_dirty = d.mp_dirty || false;
        })

  -- from the value of the led on
  led-IsWrite :
      (d : HeadMcuDriver F) (axis : Axis) (leds : ℤ → Leds) (duty : Result Exc ℤ)
      → is_led axis ≡ true
      → IsWrite d (write_outcome d (with_led d leds duty >>= λ e. ok (mark_dirty axis e))).0
  unfolding mark_dirty write_outcome
  led-IsWrite d axis leds (ok v) h = rw h (led (leds v))
  led-IsWrite d axis leds (raised x) h = refused

  pub write-IsWrite : (axis : Axis) (val : F) (d : HeadMcuDriver F) → IsWrite d (write axis val d).0
  unfolding write write_axis write_outcome set_axis mark_dirty
  write-IsWrite led_r val d =
      led-IsWrite d led_r (λ v. record d.leds { red = v }) (topwm12 val) refl
  write-IsWrite led_g val d =
      led-IsWrite d led_g (λ v. record d.leds { green = v }) (topwm12 val) refl
  write-IsWrite led_b val d =
      led-IsWrite d led_b (λ v. record d.leds { blue = v }) (topwm12 val) refl
  write-IsWrite led_l1 val d =
      led-IsWrite d led_l1 (λ v. record d.leds { ring_1 = v }) (topwm8 val) refl
  write-IsWrite led_l2 val d =
      led-IsWrite d led_l2 (λ v. record d.leds { ring_2 = v }) (topwm8 val) refl
  write-IsWrite mouth val d = servo _
  write-IsWrite ear_l val d = servo _
  write-IsWrite ear_r val d = servo _
  write-IsWrite neck_tilt val d = servo _
  write-IsWrite neck_pitch val d = servo _
  write-IsWrite eyes_pitch val d = servo _
  write-IsWrite eye_l val d = servo _
  write-IsWrite eye_r val d = servo _
  write-IsWrite lid_l val d = servo _
  write-IsWrite lid_r val d = servo _
  write-IsWrite eyes_open val d = servo _

  -- The servos have a change to send, or were never changed nor shown, or are what is shown.
  abbrev pub IsMotionShown : HeadMcuDriver F → Type 0
  IsMotionShown d =
      (d.mp_dirty ≡ true)
      ⊎ ((d.shown_motion ≡ none) × (d.servos ≡ initial_servos))
      ⊎ ((p : Bytes) × (motion_packet d.servos ≡ ok p) × (d.shown_motion ≡ some p))

  abbrev pub AreLedsShown : HeadMcuDriver F → Type 0
  AreLedsShown d =
      (d.leds_dirty ≡ true)
      ⊎ ((d.shown_leds ≡ none) × (d.leds ≡ initial_leds))
      ⊎ ((p : Bytes) × (pack_leds d.leds ≡ ok p) × (d.shown_leds ≡ some p))

  abbrev pub IsShown : HeadMcuDriver F → Type 0
  IsShown d = IsMotionShown d × AreLedsShown d

  pub IsWrite-IsShown : (d e : HeadMcuDriver F) → IsWrite d e → IsShown d → IsShown e
  IsWrite-IsShown d e refused h = h
  IsWrite-IsShown d e (servo s) h = (inl (or-true d.mp_dirty), rw (or-false d.leds_dirty) h.1)
  IsWrite-IsShown d e (led l) h = (rw (or-false d.mp_dirty) h.0, inl (or-true d.leds_dirty))

  send_motion-IsShown :
      (reply : Reply) (motion : Option Bytes) (d : HeadMcuDriver F)
      → IsPart d.mp_dirty (motion_packet d.servos) motion
      → IsShown d
      → IsShown (send_motion reply motion d).0
  unfolding send_motion
  send_motion-IsShown reply none d part h = h
  send_motion-IsShown delivered (some bytes) d part h =
      (inr (inr (bytes, part_packed d.mp_dirty (motion_packet d.servos) bytes part, refl)), h.1)
  send_motion-IsShown lost (some bytes) d part h = h
  send_motion-IsShown broken (some bytes) d part h = h

  -- Sending the motion packet leaves the leds as they are.
  pub send_motion_keeps_leds :
      (reply : Reply) (motion leds : Option Bytes) (d : HeadMcuDriver F)
      → IsPart d.leds_dirty (pack_leds d.leds) leds
      → IsPart
          (send_motion reply motion d).0.leds_dirty
          (pack_leds (send_motion reply motion d).0.leds)
          leds
  unfolding send_motion
  send_motion_keeps_leds reply none leds d part = part
  send_motion_keeps_leds delivered (some bytes) leds d part = part
  send_motion_keeps_leds lost (some bytes) leds d part = part
  send_motion_keeps_leds broken (some bytes) leds d part = part

  send_leds-IsShown :
      (reply : Reply) (leds : Option Bytes) (d : HeadMcuDriver F)
      → IsPart d.leds_dirty (pack_leds d.leds) leds
      → IsShown d
      → IsShown (send_leds reply leds d).0
  unfolding send_leds
  send_leds-IsShown reply none d part h = h
  send_leds-IsShown delivered (some bytes) d part h =
      (h.0, inr (inr (bytes, part_packed d.leds_dirty (pack_leds d.leds) bytes part, refl)))
  send_leds-IsShown lost (some bytes) d part h = h
  send_leds-IsShown broken (some bytes) d part h = h

  ended-IsShown :
      (sent sent_leds : Reply) (e f : HeadMcuDriver F)
      → IsShown e
      → IsShown f
      → IsShown (packets_sent sent sent_leds e f).0
  unfolding packets_sent
  ended-IsShown broken sent_leds e f he hf = he
  ended-IsShown lost sent_leds e f he hf = hf
  ended-IsShown delivered sent_leds e f he hf = hf

  flush_packed-IsShown :
      (r1 r2 : Reply) (left right : ℤ) (d : HeadMcuDriver F)
      (packed : Result Exc (Option Bytes × Option Bytes))
      → neck_left d.servos ≡ ok left
      → neck_right d.servos ≡ ok right
      → pack_dirty left right d ≡ packed
      → IsShown d
      → IsShown (flush_packed r1 r2 d packed).0
  unfolding flush_packed
  flush_packed-IsShown r1 r2 left right d (ok (motion, leds)) left_ok right_ok q h =
      let parts = pack_dirty-parts left right d motion leds left_ok right_ok q in
      let d1 = in_buffers (motion, leds) d in
      let e = (send_motion r1 motion d1).0 in
      let shown = send_motion-IsShown r1 motion d1 parts.0 h in
      rw (send_packets-parts r1 r2 left right d motion leds q) (
        ended-IsShown (send_motion r1 motion d1).1 (send_leds r2 leds e).1 e (send_leds r2 leds e).0
          shown
          (send_leds-IsShown r2 leds e (send_motion_keeps_leds r1 motion leds d1 parts.1) shown))
  flush_packed-IsShown r1 r2 left right d (raised e) left_ok right_ok q h = h

  pub flush-IsShown : (r1 r2 : Reply) (d : HeadMcuDriver F) → IsShown d → IsShown (flush r1 r2 d).0
  flush-IsShown r1 r2 d h = flush_keeps IsShown r1 r2 d h (λ left right left_ok right_ok.
      flush_packed-IsShown r1 r2 left right d (pack_dirty left right d) left_ok right_ok refl h)
