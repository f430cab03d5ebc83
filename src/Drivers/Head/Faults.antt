-- ===== src/Drivers/Head/Faults.antt =====
-- Two ways in which the driver of mcudrivers/head_driver.py gets stuck.
use animacharacter_dev_src.Prelude.{
  ℕ, String, ℤ, pos, negsuc, ◌≡◌, ◌≢◌, refl, sym, ap, ◌∙◌, Bool, not, true, false, ◌||◌, Option,
  some, List, [], ◌∷◌, All, arith, Result, ok, raised, ◌>>=◌, Exc, ok-inj, bind-ok, string_key,
}
use animacharacter_dev_src.Prelude.Bytes.{Bytes}
use mathlib.Core.Bool.{or-true}
use animacharacter_dev_src.Drivers.Numbers.{Number, topwm8, topwm12}
use animacharacter_dev_src.Drivers.Packing.{pack_uint8, pack_all}
use animacharacter_dev_src.Drivers.Head.{
  Axis, led_r, led_g, led_b, led_l1, led_l2, mouth, ear_l, ear_r, neck_tilt, neck_pitch, eyes_pitch,
  eye_l, eye_r, lid_l, lid_r, eyes_open, Leds, Servos, HeadMcuDriver, is_led, new_head, with_led,
  set_axis, mark_dirty, write_axis, write_outcome, write,
}
use animacharacter_dev_src.Drivers.Head.Flush.{
  Reply, small_fields, large_fields, pack_motion, if_dirty, pack_dirty, flush_packed, flush,
  flush_motors, flush_from, begun_by, begin,
}
use animacharacter_dev_src.Drivers.Head.Packed.{flush_keeps}
use animacharacter_dev_src.Drivers.Head.Runs.{
  HeadCall, writes, flushes, begins, deinits, head_step, head_steps, begin_keeps,
}

ear_not_packed :
    (k : ℕ) (mouth_field : ℤ) (rest : List ℤ) (bytes : Bytes)
    → pack_all pack_uint8 (mouth_field ∷ negsuc k ∷ rest) ≢ ok bytes
unfolding pack_all pack_uint8
ear_not_packed k mouth_field rest bytes h =
    ground (arith, (bind-ok (pack_uint8 mouth_field) _ bytes h).2)

module _ {F : Type 0} ⦃n : Number F⦄ where
  abbrev pub IsNoWrite : HeadCall F → Type 0
  IsNoWrite (writes axis val) = ⊥
  IsNoWrite (flushes r1 r2) = Unit
  IsNoWrite (begins opens name acknowledges r1 r2) = Unit
  IsNoWrite deinits = Unit

  flush-new_head : (r1 r2 : Reply) → flush r1 r2 (new_head {F = F}) ≡ (new_head, ok false)
  unfolding flush flush_motors flush_from
  flush-new_head r1 r2 = refl

  begin-new_head :
      (opens : Bool) (name : String) (acknowledges : Bool) (r1 r2 : Reply)
      → begin opens name acknowledges r1 r2 (new_head {F = F}) ≡ (new_head, ok false)
  unfolding begin begun_by
  begin-new_head opens name acknowledges r1 r2 = ground (arith, flush-new_head r1 r2)

  idle_steps :
      (calls : List (HeadCall F)) → All IsNoWrite calls → head_steps calls new_head ≡ new_head
  idle_steps [] h = refl
  idle_steps (flushes r1 r2 ∷ calls) h =
      ap (λ x. head_steps calls x.0) (flush-new_head r1 r2) ∙ idle_steps calls h.1
  idle_steps (begins opens name acknowledges r1 r2 ∷ calls) h =
      ap (λ x. head_steps calls x.0) (begin-new_head opens name acknowledges r1 r2)
      ∙ idle_steps calls h.1
  idle_steps (deinits ∷ calls) h = idle_steps calls h.1
  idle_steps (writes axis val ∷ calls) h = elim h.0 [ ]

  -- Whatever flush, begin and deinit were called before, as long as nothing was written since the
  -- construction begin returns false and leaves the driver as it was constructed, even where the
  -- device opens, gives the expected name, acknowledges and takes every packet.
  pub begin_needs_write :
      (calls : List (HeadCall F)) (opens : Bool) (name : String) (acknowledges : Bool)
      (r1 r2 : Reply)
      → All IsNoWrite calls
      → begin opens name acknowledges r1 r2 (head_steps calls new_head) ≡ (new_head, ok false)
  begin_needs_write calls opens name acknowledges r1 r2 h =
      rw (idle_steps calls h) (begin-new_head opens name acknowledges r1 r2)

  -- The left ear is turned below zero by at least one step of 127, and the servos have a change.
  abbrev pub IsEarDown : ℕ → HeadMcuDriver F → Type 0
  IsEarDown k d =
      (d.mp_dirty ≡ true)
      × (n.to_int (n.mul_n d.servos.ear_left (n.of_int (pos 127))) ≡ ok (negsuc k))

  small_fields_ear :
      (k : ℕ) (s : Servos F) (fields : List ℤ)
      → n.to_int (n.mul_n s.ear_left (n.of_int (pos 127))) ≡ ok (negsuc k)
      → small_fields s ≡ ok fields
      → (mouth_field : ℤ) × (rest : List ℤ) × (fields ≡ mouth_field ∷ negsuc k ∷ rest)
  unfolding small_fields
  small_fields_ear k s fields ear h =
      let (m, _, h1) = bind-ok (n.to_int (n.mul_n s.mouth_at (n.of_int (pos 255)))) _ fields h in
      let (l, left, h2) =
        bind-ok (n.to_int (n.mul_n s.ear_left (n.of_int (pos 127)))) _ fields h1 in
      let (r, _, h3) = bind-ok (n.to_int (n.mul_n s.ear_right (n.of_int (pos 127)))) _ fields h2 in
      let (ll, _, h4) = bind-ok (n.to_int (n.mul_n s.lid_left s.open_factor)) _ fields h3 in
      let (lr, _, h5) = bind-ok (n.to_int (n.mul_n s.lid_right s.open_factor)) _ fields h4 in
      (
        m,
        r ∷ ll ∷ lr ∷ [],
        sym (ok-inj h5) ∙ ap (λ v. m ∷ v ∷ r ∷ ll ∷ lr ∷ []) (ok-inj (sym left ∙ ear)),
      )

  ear_not_sent :
      (k : ℕ) (left right : ℤ) (s : Servos F) (bytes : Bytes)
      → n.to_int (n.mul_n s.ear_left (n.of_int (pos 127))) ≡ ok (negsuc k)
      → pack_motion left right s ≢ ok bytes
  unfolding pack_motion
  ear_not_sent k left right s bytes ear h =
      let (small, small_ok, h1) = bind-ok (small_fields s) _ bytes h in
      let (large, _, h2) = bind-ok (large_fields left right s) _ bytes h1 in
      let (head, packed, _) = bind-ok (pack_all pack_uint8 small) _ bytes h2 in
      let (m, rest, shape) = small_fields_ear k s small ear small_ok in
      ear_not_packed k m rest head (rw (sym shape) packed)

  flush_packed_unsent :
      (r1 r2 : Reply) (d : HeadMcuDriver F) (packed : Result Exc (Option Bytes × Option Bytes))
      → ((parts : Option Bytes × Option Bytes) → packed ≢ ok parts)
      → (flush_packed r1 r2 d packed).0 ≡ d
  unfolding flush_packed
  flush_packed_unsent r1 r2 d (raised e) h = refl
  flush_packed_unsent r1 r2 d (ok parts) h = absurd (h parts refl)

  ear_blocks_packing :
      (k : ℕ) (left right : ℤ) (d : HeadMcuDriver F) (parts : Option Bytes × Option Bytes)
      → IsEarDown k d
      → pack_dirty left right d ≢ ok parts
  unfolding pack_dirty
  ear_blocks_packing k left right d parts ear h =
      let (m, motion, _) =
        bind-ok (if_dirty d.mp_dirty (pack_motion left right d.servos)) _ parts h in
      let (bytes, packed, _) =
        bind-ok (pack_motion left right d.servos) (λ b. ok (some b)) m (rw ear.0 at motion) in
      ear_not_sent k left right d.servos bytes ear.1 packed

  flush_blocked :
      (k : ℕ) (r1 r2 : Reply) (d : HeadMcuDriver F) → IsEarDown k d → (flush r1 r2 d).0 ≡ d
  flush_blocked k r1 r2 d ear =
      flush_keeps (λ e. e ≡ d) r1 r2 d refl
        (λ left right left_ok right_ok.
          flush_packed_unsent r1 r2 d (pack_dirty left right d)
            (λ parts. ear_blocks_packing k left right d parts ear))

  abbrev pub IsNoEarWrite : HeadCall F → Type 0
  IsNoEarWrite (writes ear_l val) = ⊥
  IsNoEarWrite (writes _ val) = Unit
  IsNoEarWrite (flushes r1 r2) = Unit
  IsNoEarWrite (begins opens name acknowledges r1 r2) = Unit
  IsNoEarWrite deinits = Unit

  -- the packet that is shown, with the ear down
  abbrev pub IsStuck : ℕ → Option Bytes → HeadMcuDriver F → Type 0
  IsStuck k shown d = IsEarDown k d × (d.shown_motion ≡ shown)

  led-IsStuck :
      (k : ℕ) (shown : Option Bytes) (d : HeadMcuDriver F) (axis : Axis) (leds : ℤ → Leds)
      (duty : Result Exc ℤ)
      → IsStuck k shown d
      → IsStuck k shown (write_outcome d (with_led d leds duty >>= λ e. ok (mark_dirty axis e))).0
  unfolding mark_dirty write_outcome
  led-IsStuck k shown d axis leds (ok v) h = ((ap (λ b. b || not (is_led axis)) h.0.0, h.0.1), h.1)
  led-IsStuck k shown d axis leds (raised x) h = h

  write-IsStuck :
      (k : ℕ) (shown : Option Bytes) (axis : Axis) (val : F) (d : HeadMcuDriver F)
      → IsNoEarWrite (writes axis val)
      → IsStuck k shown d
      → IsStuck k shown (write axis val d).0
  unfolding write write_axis write_outcome set_axis mark_dirty
  write-IsStuck k shown ear_l val d kept h = elim kept [ ]
  write-IsStuck k shown led_r val d kept h = led-IsStuck k shown d led_r _ (topwm12 val) h
  write-IsStuck k shown led_g val d kept h = led-IsStuck k shown d led_g _ (topwm12 val) h
  write-IsStuck k shown led_b val d kept h = led-IsStuck k shown d led_b _ (topwm12 val) h
  write-IsStuck k shown led_l1 val d kept h = led-IsStuck k shown d led_l1 _ (topwm8 val) h
  write-IsStuck k shown led_l2 val d kept h = led-IsStuck k shown d led_l2 _ (topwm8 val) h
  write-IsStuck k shown mouth val d kept h = ((or-true d.mp_dirty, h.0.1), h.1)
  write-IsStuck k shown ear_r val d kept h = ((or-true d.mp_dirty, h.0.1), h.1)
  write-IsStuck k shown neck_tilt val d kept h = ((or-true d.mp_dirty, h.0.1), h.1)
  write-IsStuck k shown neck_pitch val d kept h = ((or-true d.mp_dirty, h.0.1), h.1)
  write-IsStuck k shown eyes_pitch val d kept h = ((or-true d.mp_dirty, h.0.1), h.1)
  write-IsStuck k shown eye_l val d kept h = ((or-true d.mp_dirty, h.0.1), h.1)
  write-IsStuck k shown eye_r val d kept h = ((or-true d.mp_dirty, h.0.1), h.1)
  write-IsStuck k shown lid_l val d kept h = ((or-true d.mp_dirty, h.0.1), h.1)
  write-IsStuck k shown lid_r val d kept h = ((or-true d.mp_dirty, h.0.1), h.1)
  write-IsStuck k shown eyes_open val d kept h = ((or-true d.mp_dirty, h.0.1), h.1)

  step-IsStuck :
      (k : ℕ) (shown : Option Bytes) (call : HeadCall F) (d : HeadMcuDriver F)
      → IsNoEarWrite call
      → IsStuck k shown d
      → IsStuck k shown (head_step call d)
  step-IsStuck k shown (writes axis val) d kept h = write-IsStuck k shown axis val d kept h
  step-IsStuck k shown (flushes r1 r2) d kept h = rw (flush_blocked k r1 r2 d h.0) h
  step-IsStuck k shown (begins opens name acknowledges r1 r2) d kept h =
      begin_keeps (IsStuck k shown) opens name acknowledges r1 r2 d (λ e stuck. stuck) h
        (rw (flush_blocked k r1 r2 d h.0) h)
  step-IsStuck k shown deinits d kept h = h

  steps-IsStuck :
      (k : ℕ) (shown : Option Bytes) (calls : List (HeadCall F)) (d : HeadMcuDriver F)
      → All IsNoEarWrite calls
      → IsStuck k shown d
      → IsStuck k shown (head_steps calls d)
  steps-IsStuck k shown [] d kept h = h
  steps-IsStuck k shown (call ∷ calls) d kept h =
      steps-IsStuck k shown calls (head_step call d) kept.1 (step-IsStuck k shown call d kept.0 h)

  -- If the left ear stands below zero by at least 1 of 127 and the servos have a change to send,
  -- then whatever is called, as long as the left ear is not written, the last motion packet that
  -- the microcontroller got stays the same and the change stays unsent.
  pub negative_ear_blocks :
      (k : ℕ) (calls : List (HeadCall F)) (d : HeadMcuDriver F)
      → All IsNoEarWrite calls
      → IsEarDown k d
      → ((head_steps calls d).shown_motion ≡ d.shown_motion)
        × ((head_steps calls d).mp_dirty ≡ true)
  negative_ear_blocks k calls d kept ear =
      let stuck = steps-IsStuck k d.shown_motion calls d kept (ear, refl) in (stuck.1, stuck.0.0)
