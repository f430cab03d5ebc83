-- ===== src/Drivers/Head/Ranges.antt =====
-- The ranges of the values that write of mcudrivers/head_driver.py keeps.
use animacharacter_dev_src.Prelude.{
  zero, suc, ℤ, pos, negsuc, ltb_ℤ, ◌≡◌, refl, sym, ◌∙◌, ◌⊎◌, inl, inr, not, false, ◌&&◌, Option,
  none, some, List, [], ◌∷◌, arith, Result, ok, raised, ◌>>=◌, Exc, Bool, true, Bool-cases, bind-ok,
  ok-inj, string_key,
}
use animacharacter_dev_src.Prelude.Int.{neg_ℤ, max_ℤ, min_ℤ, times_ℤ}
use animacharacter_dev_src.Prelude.Bytes.{Bytes}
use animacharacter_dev_src.Drivers.Numbers.{Number, clamp, topwm8, topwm12}
use animacharacter_dev_src.Drivers.Head.{
  Axis, led_r, led_g, led_b, led_l1, led_l2, mouth, ear_l, ear_r, neck_tilt, neck_pitch, eyes_pitch,
  eye_l, eye_r, lid_l, lid_r, eyes_open, Leds, Servos, HeadMcuDriver, new_head, with_led, set_axis,
  mark_dirty, write_axis, write_outcome, write,
}
use animacharacter_dev_src.Drivers.Head.Flush.{
  Reply, delivered, lost, broken, pack_dirty, send_motion, send_leds, packets_sent, send_packets,
  flush_packed, flush, in_buffers, buffer_if,
}
use animacharacter_dev_src.Drivers.Head.Packed.{flush_keeps}
use animacharacter_dev_src.Drivers.Head.Runs.{
  begin_keeps, HeadCall, writes, flushes, begins, deinits, head_step, head_steps,
}

-- a duty cycle of 0 or 1 out of 255 or 4095
abbrev pub IsLow : ℤ → Type 0
IsLow v = (v ≡ pos 0) ⊎ (v ≡ pos 1)

cut-IsLow : (z : ℤ) → IsLow (min_ℤ (max_ℤ z (pos 0)) (pos 1))
cut-IsLow (negsuc m) = inl ground arith
cut-IsLow (pos zero) = inl ground arith
cut-IsLow (pos (suc m)) = inr ground arith

abbrev pub AreLow : Leds → Type 0
AreLow l = IsLow l.red × IsLow l.green × IsLow l.blue × IsLow l.ring_1 × IsLow l.ring_2

-- an integer from -60 to 60
abbrev pub is_small : ℤ → Bool
is_small z = not (ltb_ℤ z (neg_ℤ (pos 60))) && not (ltb_ℤ (pos 60) z)

-- Floats compare the integers from -60 to 60 that they stand for as integers.
abbrev pub ComparesIntegers : {F : Type 0} → Number F → Type 0
ComparesIntegers n =
    (a b : ℤ) → is_small a ≡ true → is_small b ≡ true → n.lt_n (n.of_int a) (n.of_int b) ≡ ltb_ℤ a b

module _ {F : Type 0} ⦃n : Number F⦄ where
  -- The float is not below `lo` and not above `hi`.
  abbrev pub IsIn : ℤ → ℤ → F → Type 0
  IsIn lo hi x = (n.lt_n x (n.of_int lo) ≡ false) × (n.lt_n (n.of_int hi) x ≡ false)

  abbrev pub AreInRange : Servos F → Type 0
  AreInRange s =
      IsIn (pos 0) (pos 1) s.mouth_at
      × IsIn (neg_ℤ (pos 1)) (pos 1) s.ear_left
      × IsIn (neg_ℤ (pos 1)) (pos 1) s.ear_right
      × IsIn (neg_ℤ (pos 1)) (pos 1) s.tilt
      × IsIn (neg_ℤ (pos 1)) (pos 1) s.pitch
      × IsIn (neg_ℤ (pos 60)) (pos 60) s.eye_left
      × IsIn (neg_ℤ (pos 60)) (pos 60) s.eye_right
      × IsIn (neg_ℤ (pos 30)) (pos 30) s.eyes_at
      × IsIn (pos 0) (pos 60) s.lid_left
      × IsIn (pos 0) (pos 60) s.lid_right
      × IsIn (pos 0) (pos 1) s.open_factor

  clamp-IsIn :
      (lo hi : ℤ) (x : F)
      → ComparesIntegers n
      → is_small lo ≡ true
      → is_small hi ≡ true
      → ltb_ℤ hi lo ≡ false
      → ltb_ℤ lo lo ≡ false
      → ltb_ℤ hi hi ≡ false
      → IsIn lo hi (clamp x (n.of_int lo) (n.of_int hi))
  clamp-IsIn lo hi x ints slo shi ordered low high = elim (Bool-cases (n.lt_n x (n.of_int lo))) [
    | inl below ↦ rw below (ints lo lo slo slo ∙ low, ints hi lo shi slo ∙ ordered)
    | inr not_below ↦ elim (Bool-cases (n.lt_n (n.of_int hi) x)) [
      | inl above ↦ rw (not_below, above) (ints hi lo shi slo ∙ ordered, ints hi hi shi shi ∙ high)
      | inr not_above ↦ rw (not_below, not_above) (not_below, not_above)
    ]
  ]

  duty-IsLow8 : (x : F) (v : ℤ) → topwm8 x ≡ ok v → IsLow v
  unfolding topwm8
  duty-IsLow8 x v h =
      let (i, _, q) = bind-ok (n.to_int x) _ v h in rw (sym (ok-inj q)) (cut-IsLow (times_ℤ 255 i))

  duty-IsLow12 : (x : F) (v : ℤ) → topwm12 x ≡ ok v → IsLow v
  unfolding topwm12
  duty-IsLow12 x v h =
      let (i, _, q) = bind-ok (n.to_int x) _ v h in rw (sym (ok-inj q)) (cut-IsLow (times_ℤ 4095 i))

  abbrev pub IsGood : HeadMcuDriver F → Type 0
  IsGood d = AreInRange d.servos × AreLow d.leds

  led-IsGood :
      (d : HeadMcuDriver F) (axis : Axis) (leds : ℤ → Leds) (duty : Result Exc ℤ)
      → IsGood d
      → ((v : ℤ) → duty ≡ ok v → AreLow (leds v))
      → IsGood (write_outcome d (with_led d leds duty >>= λ e. ok (mark_dirty axis e))).0
  unfolding mark_dirty write_outcome
  led-IsGood d axis leds (ok v) h low = (h.0, low v refl)
  led-IsGood d axis leds (raised x) h low = h

  write-IsGood :
      (axis : Axis) (val : F) (d : HeadMcuDriver F)
      → ComparesIntegers n
      → IsGood d
      → IsGood (write axis val d).0
  unfolding write write_axis write_outcome set_axis mark_dirty
  write-IsGood led_r val d ints h =
      led-IsGood d led_r _ (topwm12 val) h
        (λ v q. (duty-IsLow12 val v q, h.1.1, h.1.2, h.1.3, h.1.4))
  write-IsGood led_g val d ints h =
      led-IsGood d led_g _ (topwm12 val) h
        (λ v q. (h.1.0, duty-IsLow12 val v q, h.1.2, h.1.3, h.1.4))
  write-IsGood led_b val d ints h =
      led-IsGood d led_b _ (topwm12 val) h
        (λ v q. (h.1.0, h.1.1, duty-IsLow12 val v q, h.1.3, h.1.4))
  write-IsGood led_l1 val d ints h =
      led-IsGood d led_l1 _ (topwm8 val) h
        (λ v q. (h.1.0, h.1.1, h.1.2, duty-IsLow8 val v q, h.1.4))
  write-IsGood led_l2 val d ints h =
      led-IsGood d led_l2 _ (topwm8 val) h
        (λ v q. (h.1.0, h.1.1, h.1.2, h.1.3, duty-IsLow8 val v q))
  write-IsGood mouth val d ints h =
      ground (arith, h, clamp-IsIn (pos 0) (pos 1) val ints refl refl refl refl refl)
  write-IsGood ear_l val d ints h =
      ground (arith, h, clamp-IsIn (neg_ℤ (pos 1)) (pos 1) val ints refl refl refl refl refl)
  write-IsGood ear_r val d ints h =
      ground (arith, h, clamp-IsIn (neg_ℤ (pos 1)) (pos 1) val ints refl refl refl refl refl)
  write-IsGood neck_tilt val d ints h =
      ground (arith, h, clamp-IsIn (neg_ℤ (pos 1)) (pos 1) val ints refl refl refl refl refl)
  write-IsGood neck_pitch val d ints h =
      ground (arith, h, clamp-IsIn (neg_ℤ (pos 1)) (pos 1) val ints refl refl refl refl refl)
  write-IsGood eye_l val d ints h =
      ground (arith, h, clamp-IsIn (neg_ℤ (pos 60)) (pos 60) val ints refl refl refl refl refl)
  write-IsGood eye_r val d ints h =
      ground (arith, h, clamp-IsIn (neg_ℤ (pos 60)) (pos 60) val ints refl refl refl refl refl)
  write-IsGood eyes_pitch val d ints h =
      ground (arith, h, clamp-IsIn (neg_ℤ (pos 30)) (pos 30) val ints refl refl refl refl refl)
  write-IsGood lid_l val d ints h =
      ground
        (arith, h, clamp-IsIn (pos 0) (pos 60) (n.mul_n val n.half) ints refl refl refl refl refl)
  write-IsGood lid_r val d ints h =
      ground
        (arith, h, clamp-IsIn (pos 0) (pos 60) (n.mul_n val n.half) ints refl refl refl refl refl)
  write-IsGood eyes_open val d ints h = ground (
    arith,
    h,
    ints (pos 0) (pos 0) refl refl,
    ints (pos 1) (pos 0) refl refl,
    ints (pos 0) (pos 1) refl refl,
    ints (pos 1) (pos 1) refl refl,
  )

  -- The flush of a head changes none of the values.
  send_motion-IsGood :
      (reply : Reply) (motion : Option Bytes) (d : HeadMcuDriver F)
      → IsGood d
      → IsGood (send_motion reply motion d).0
  unfolding send_motion
  send_motion-IsGood reply none d h = h
  send_motion-IsGood delivered (some bytes) d h = h
  send_motion-IsGood lost (some bytes) d h = h
  send_motion-IsGood broken (some bytes) d h = h

  send_leds-IsGood :
      (reply : Reply) (leds : Option Bytes) (d : HeadMcuDriver F)
      → IsGood d
      → IsGood (send_leds reply leds d).0
  unfolding send_leds
  send_leds-IsGood reply none d h = h
  send_leds-IsGood delivered (some bytes) d h = h
  send_leds-IsGood lost (some bytes) d h = h
  send_leds-IsGood broken (some bytes) d h = h

  packets_sent-IsGood :
      (sent sent_leds : Reply) (e f : HeadMcuDriver F)
      → IsGood e
      → IsGood f
      → IsGood (packets_sent sent sent_leds e f).0
  unfolding packets_sent
  packets_sent-IsGood broken sent_leds e f he hf = he
  packets_sent-IsGood lost sent_leds e f he hf = hf
  packets_sent-IsGood delivered sent_leds e f he hf = hf

  flush_packed-IsGood :
      (r1 r2 : Reply) (d : HeadMcuDriver F) (packed : Result Exc (Option Bytes × Option Bytes))
      → IsGood d
      → IsGood (flush_packed r1 r2 d packed).0
  unfolding flush_packed send_packets
  flush_packed-IsGood r1 r2 d (raised e) h = h
  flush_packed-IsGood r1 r2 d (ok parts) h =
      let d1 = in_buffers parts d in
      let motion = buffer_if d1.mp_dirty d1.motion_buffer in
      let e = (send_motion r1 motion d1).0 in
      let leds = buffer_if e.leds_dirty e.leds_buffer in
      let good = send_motion-IsGood r1 motion d1 h in
      packets_sent-IsGood (send_motion r1 motion d1).1 (send_leds r2 leds e).1 e
        (send_leds r2 leds e).0 good (send_leds-IsGood r2 leds e good)

  flush-IsGood : (r1 r2 : Reply) (d : HeadMcuDriver F) → IsGood d → IsGood (flush r1 r2 d).0
  flush-IsGood r1 r2 d h =
      flush_keeps IsGood r1 r2 d h
        (λ left right left_ok right_ok. flush_packed-IsGood r1 r2 d (pack_dirty left right d) h)

  step-IsGood :
      (call : HeadCall F) (d : HeadMcuDriver F)
      → ComparesIntegers n
      → IsGood d
      → IsGood (head_step call d)
  step-IsGood (writes axis val) d ints h = write-IsGood axis val d ints h
  step-IsGood (flushes r1 r2) d ints h = flush-IsGood r1 r2 d h
  step-IsGood (begins opens name acknowledges r1 r2) d ints h =
      begin_keeps IsGood opens name acknowledges r1 r2 d (λ e good. good) h (flush-IsGood r1 r2 d h)
  step-IsGood deinits d ints h = h

  steps-IsGood :
      (calls : List (HeadCall F)) (d : HeadMcuDriver F)
      → ComparesIntegers n
      → IsGood d
      → IsGood (head_steps calls d)
  steps-IsGood [] d ints h = h
  steps-IsGood (call ∷ calls) d ints h =
      steps-IsGood calls (head_step call d) ints (step-IsGood call d ints h)

initial-IsGood :
    {F : Type 0} (n : Number F) → ComparesIntegers n → IsGood ⦃n = n⦄ (new_head {F = F} ⦃n = n⦄)
initial-IsGood n ints = (
  (
    (ints _ _ refl refl, ints _ _ refl refl),
    (ints _ _ refl refl, ints _ _ refl refl),
    (ints _ _ refl refl, ints _ _ refl refl),
    (ints _ _ refl refl, ints _ _ refl refl),
    (ints _ _ refl refl, ints _ _ refl refl),
    (ints _ _ refl refl, ints _ _ refl refl),
    (ints _ _ refl refl, ints _ _ refl refl),
    (ints _ _ refl refl, ints _ _ refl refl),
    (ints _ _ refl refl, ints _ _ refl refl),
    (ints _ _ refl refl, ints _ _ refl refl),
    (ints _ _ refl refl, ints _ _ refl refl),
  ),
  (inl refl, inl refl, inl refl, inl refl, inl refl),
)

module _ {F : Type 0} ⦃n : Number F⦄ where
  -- After any calls from the construction on, no value of a servo is below or above its axis's
  -- range, whatever was written (a value that is not a number is neither), and each led has a duty
  -- of 0 or 1 out of 255 or 4095. Floats are assumed to compare the
  -- integers from -60 to 60 as integers.
  pub calls_keep_ranges :
      (calls : List (HeadCall F))
      → ComparesIntegers n
      → AreInRange (head_steps calls new_head).servos × AreLow (head_steps calls new_head).leds
  calls_keep_ranges calls ints = steps-IsGood calls new_head ints (initial-IsGood n ints)
