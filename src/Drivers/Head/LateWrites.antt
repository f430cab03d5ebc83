-- ===== src/Drivers/Head/LateWrites.antt =====
-- mcudrivers/head_driver.py: a write of another thread between the parts of flush.
use animacharacter_dev_src.Prelude.{
  ℤ, ◌≡◌, refl, ap, ◌∙◌, inl, inr, Bool, true, false, Option, some, Result, ok, Exc, ok-inj,
  Bool-cases, arith,
}
use animacharacter_dev_src.Prelude.Bytes.{Bytes}
use mathlib.Core.Bool.{or-true, or-false}
use animacharacter_dev_src.Drivers.Numbers.{Number}
use animacharacter_dev_src.Drivers.Head.{Axis, HeadMcuDriver, write}
use animacharacter_dev_src.Drivers.Head.Flush.{
  delivered, if_dirty, in_buffers, pack_motion, pack_dirty, send_motion, send_leds, packets_sent,
  send_packets,
}
use animacharacter_dev_src.Drivers.Head.Packed.{pack_dirty-if}
use animacharacter_dev_src.Drivers.Head.Shown.{IsWrite, refused, servo, led, write-IsWrite}

packed_dirty :
    (dirty : Bool) (packed : Result Exc Bytes) (bytes : Bytes)
    → if_dirty dirty packed ≡ ok (some bytes)
    → dirty ≡ true
packed_dirty true packed bytes h = refl
packed_dirty false packed bytes h = absurd (ground (arith, ok-inj h))

module _ {F : Type 0} ⦃n : Number F⦄ where
  IsWrite-keeps_motion :
      (d e : HeadMcuDriver F)
      → IsWrite d e
      → d.mp_dirty ≡ true
      → (e.mp_dirty ≡ true) × (e.motion_buffer ≡ d.motion_buffer)
  IsWrite-keeps_motion d e refused h = (h, refl)
  IsWrite-keeps_motion d e (servo s) h = (or-true d.mp_dirty, refl)
  IsWrite-keeps_motion d e (led l) h = (or-false d.mp_dirty ∙ h, refl)

  sent_from_buffer :
      (f : HeadMcuDriver F)
      → f.mp_dirty ≡ true
      → let g = send_packets delivered delivered f in
        (g.1 ≡ true)
        × (g.0.shown_motion ≡ some f.motion_buffer)
        × (g.0.mp_dirty ≡ false)
        × (g.0.leds_dirty ≡ false)
        × (g.0.servos ≡ f.servos)
        × (g.0.leds ≡ f.leds)
  unfolding send_packets send_motion send_leds packets_sent
  sent_from_buffer f h = elim (Bool-cases f.leds_dirty) [
    | inl l ↦ rw (h, l) (refl, refl, refl, refl, refl, refl)
    | inr l ↦ rw (h, l) (refl, refl, refl, refl, refl, refl)
  ]

  -- A write of another thread that comes after flush has made a motion packet and before it has
  -- sent it is lost: when both packets are delivered flush returns true and nothing is dirty, while
  -- the values are those after the write and the microcontroller has the packet made before it.
  pub late_write_lost :
      (left right : ℤ) (d : HeadMcuDriver F) (motion : Bytes) (leds : Option Bytes) (axis : Axis)
      (val : F)
      → pack_dirty left right d ≡ ok (some motion, leds)
      → let f = (write axis val (in_buffers (some motion, leds) d)).0 in
        let g = send_packets delivered delivered f in
        (g.1 ≡ true)
        × (g.0.shown_motion ≡ some motion)
        × (g.0.mp_dirty ≡ false)
        × (g.0.leds_dirty ≡ false)
        × (g.0.servos ≡ f.servos)
        × (g.0.leds ≡ f.leds)
  late_write_lost left right d motion leds axis val h =
      let d1 = in_buffers (some motion, leds) d in
      let f = (write axis val d1).0 in
      let dirty =
        packed_dirty d.mp_dirty (pack_motion left right d.servos) motion
          (pack_dirty-if left right d (some motion) leds h).0 in
      let (f_dirty, f_buffer) = IsWrite-keeps_motion d1 f (write-IsWrite axis val d1) dirty in
      let (success, shown, motion_clean, leds_clean, servos, leds_kept) =
        sent_from_buffer f f_dirty in
      (success, shown ∙ ap some f_buffer, motion_clean, leds_clean, servos, leds_kept)
