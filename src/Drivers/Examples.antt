-- ===== src/Drivers/Examples.antt =====
-- A head driver over whole numbers, in which a half is 0, and the theorems about it there.
use animacharacter_dev_src.Prelude.{
  ℕ, suc, ◌+◌, ◌-◌, ℤ, pos, negsuc, ltb_ℤ, ltb, ◌≡◌, refl, ◌⊎◌, Bool, true, false, none, some, List,
  [], ◌∷◌, ok, if◌then◌else◌,
}
use animacharacter_dev_src.Prelude.Int.{neg_ℤ, times_ℤ, pos_part, neg_part}
use animacharacter_dev_src.Prelude.Bytes.{Bytes}
use animacharacter_dev_src.Drivers.Numbers.{Number, topwm12}
use animacharacter_dev_src.Drivers.Packing.{pack_uint8, pack_int16, pack_all}
use animacharacter_dev_src.Drivers.Head.{
  led_r, mouth, ear_l, HeadMcuDriver, initial_servos, initial_leds, new_head, set_axis, mark_dirty,
  write_axis, write_outcome, write,
}
use animacharacter_dev_src.Drivers.Head.Flush.{
  delivered, lost, neck_motor, neck_left, neck_right, small_fields, large_fields, pack_motion,
  pack_leds, pack_dirty, send_motion, send_leds, packets_sent, send_packets, flush_packed,
  flush_motors, flush_from, flush, in_buffers, device_name, begun_by, begin,
}
use animacharacter_dev_src.Drivers.Head.Packed.{motion_packet}
use animacharacter_dev_src.Drivers.Head.Runs.{
  HeadCall, writes, flushes, begins, head_steps, successful_flush_shows,
}
use animacharacter_dev_src.Drivers.Head.Ranges.{AreInRange, AreLow, calls_keep_ranges}
use animacharacter_dev_src.Drivers.Head.LateWrites.{late_write_lost}
use animacharacter_dev_src.Drivers.Head.Faults.{begin_needs_write, negative_ear_blocks}

abbrev difference : ℕ → ℕ → ℤ
difference a b = if ltb a b then negsuc (b - a - 1) else pos (a - b)

abbrev whole_times : ℤ → ℤ → ℤ
whole_times (pos a) z = times_ℤ a z
whole_times (negsuc a) z = neg_ℤ (times_ℤ (suc a) z)

abbrev whole_plus : ℤ → ℤ → ℤ
whole_plus a b = difference (pos_part a + pos_part b) (neg_part a + neg_part b)

abbrev is_zero_whole : ℤ → Bool
is_zero_whole z = if ltb_ℤ z (pos 0) then false else if ltb_ℤ (pos 0) z then false else true

instance abbrev whole_numbers : Number ℤ
whole_numbers = record {
  of_int = λ z. z;
  half = pos 0;
  lt_n = ltb_ℤ;
  add_n = whole_plus;
  sub_n = λ a b. whole_plus a (neg_ℤ b);
  mul_n = whole_times;
  is_zero = is_zero_whole;
  to_int = ok;
}

-- The ear is turned up, a first flush is lost, and the mouth and a led are written.
abbrev calls : List (HeadCall ℤ)
calls =
    writes ear_l (pos 3) ∷ flushes lost delivered ∷ writes mouth (pos 0) ∷ writes led_r (pos 1) ∷ []

calls_flush : (flush delivered delivered (head_steps calls new_head)).1 ≡ ok true
unfolding write set_axis mark_dirty write_axis write_outcome begin begun_by flush flush_motors
    flush_from flush_packed send_packets packets_sent send_leds send_motion pack_dirty pack_leds
    pack_motion neck_left neck_right neck_motor small_fields large_fields pack_all pack_uint8
    pack_int16 topwm12
calls_flush = refl

successful_flush_shows_example :
    let d = (flush delivered delivered (head_steps calls new_head)).0 in
    (((d.shown_motion ≡ none) × (d.servos ≡ initial_servos))
      ⊎ ((p : Bytes) × (motion_packet d.servos ≡ ok p) × (d.shown_motion ≡ some p)))
    × (((d.shown_leds ≡ none) × (d.leds ≡ initial_leds))
        ⊎ ((p : Bytes) × (pack_leds d.leds ≡ ok p) × (d.shown_leds ≡ some p)))
successful_flush_shows_example = successful_flush_shows calls delivered delivered calls_flush

calls_keep_ranges_example :
    AreInRange (head_steps calls new_head).servos × AreLow (head_steps calls new_head).leds
calls_keep_ranges_example = calls_keep_ranges calls (λ a b small_a small_b. refl)

begin_needs_write_example :
    begin true device_name true delivered delivered
      (head_steps (begins true device_name true delivered delivered ∷ []) (new_head {F = ℤ}))
    ≡ (new_head, ok false)
begin_needs_write_example =
    begin_needs_write (begins true device_name true delivered delivered ∷ []) true device_name true
      delivered delivered (tt, tt)

-- the ear turned down, after a first flush
abbrev ear_down : HeadMcuDriver ℤ
ear_down = head_steps (writes ear_l (negsuc 0) ∷ []) (head_steps calls new_head)

negative_ear_blocks_example :
    ((head_steps (writes mouth (pos 1) ∷ flushes delivered delivered ∷ []) ear_down).shown_motion
      ≡ ear_down.shown_motion)
    × ((head_steps (writes mouth (pos 1) ∷ flushes delivered delivered ∷ []) ear_down).mp_dirty
        ≡ true)
unfolding write set_axis mark_dirty write_axis write_outcome begin begun_by flush flush_motors
    flush_from flush_packed send_packets packets_sent send_leds send_motion pack_dirty pack_leds
    pack_motion neck_left neck_right neck_motor small_fields large_fields pack_all pack_uint8
    pack_int16 topwm12
negative_ear_blocks_example =
    negative_ear_blocks 126 (writes mouth (pos 1) ∷ flushes delivered delivered ∷ []) ear_down
      (tt, (tt, tt)) (refl, refl)

-- what the first flush packs, and the mouth written after it
abbrev packed : HeadMcuDriver ℤ
packed = (write ear_l (pos 3) new_head).0

abbrev packet : Bytes
packet = 255 ∷ 127 ∷ 0 ∷ 20 ∷ 20 ∷ 0 ∷ 0 ∷ 0 ∷ 0 ∷ 0 ∷ 0 ∷ 150 ∷ 0 ∷ 14 ∷ 1 ∷ []

late_write_lost_example :
    let f = (write mouth (pos 0) (in_buffers (some packet, none) packed)).0 in
    let g = send_packets delivered delivered f in
    (g.1 ≡ true)
    × (g.0.shown_motion ≡ some packet)
    × (g.0.mp_dirty ≡ false)
    × (g.0.leds_dirty ≡ false)
    × (g.0.servos ≡ f.servos)
    × (g.0.leds ≡ f.leds)
unfolding write set_axis mark_dirty write_axis write_outcome pack_dirty pack_motion small_fields
    large_fields pack_all pack_uint8 pack_int16
late_write_lost_example = late_write_lost (pos 150) (pos 270) packed packet none mouth (pos 0) refl
