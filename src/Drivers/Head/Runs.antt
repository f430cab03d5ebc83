-- ===== src/Drivers/Head/Runs.antt =====
-- Any calls of the methods of HeadMcuDriver in mcudrivers/head_driver.py.
use animacharacter_dev_src.Prelude.{
  ℤ, String, ◌≡◌, refl, sym, ap, ◌∙◌, ◌⊎◌, inl, inr, Bool, not, true, false, Option, none, some,
  List, [], ◌∷◌, arith, Result, ok, raised, Exc, ok-inj, if◌then◌else◌, equal, string_key,
}
use animacharacter_dev_src.Prelude.Bytes.{Bytes}
use animacharacter_dev_src.Drivers.Numbers.{Number}
use animacharacter_dev_src.Drivers.Head.{
  Axis, HeadMcuDriver, initial_leds, initial_servos, new_head, write,
}
use animacharacter_dev_src.Drivers.Head.Flush.{
  Reply, delivered, lost, broken, pack_leds, neck_left, neck_right, in_buffers, flush_motors,
  flush_from, pack_dirty, send_motion, send_leds, packets_sent, is_struct_error, flush_packed,
  flush, device_name, begun_by, begin, deinit,
}
use animacharacter_dev_src.Drivers.Head.Packed.{
  IsPart, motion_packet, pack_dirty-parts, flush_motors-ok, send_packets-parts,
}
use animacharacter_dev_src.Drivers.Head.Shown.{
  IsShown, write-IsWrite, IsWrite-IsShown, flush-IsShown, send_motion_keeps_leds,
}

pub data HeadCall (F : Type 0) : Type 0 where
  writes : Axis → F → HeadCall F
  flushes : Reply → Reply → HeadCall F
  begins : Bool → String → Bool → Reply → Reply → HeadCall F
  deinits : HeadCall F

error_ne_true :
    {A : Type 0} (b : Bool) (e : Exc)
    → Path (Result Exc Bool) (if b then ok false else raised e) (ok true)
    → A
error_ne_true true e h = absurd (ground (arith, h))
error_ne_true false e h = absurd (ground (arith, h))

if_clean : {A : Type 0} {b : Bool} → b ≡ false → (b ≡ true) ⊎ A → A
if_clean clean (inl dirty) = absurd (ground (arith, clean, dirty))
if_clean clean (inr a) = a

module _ {F : Type 0} ⦃n : Number F⦄ where
  abbrev pub head_step : HeadCall F → HeadMcuDriver F → HeadMcuDriver F
  head_step (writes axis val) d = (write axis val d).0
  head_step (flushes r1 r2) d = (flush r1 r2 d).0
  head_step (begins opens name acknowledges r1 r2) d = (begin opens name acknowledges r1 r2 d).0
  head_step deinits d = deinit d

  abbrev pub head_steps : List (HeadCall F) → HeadMcuDriver F → HeadMcuDriver F
  head_steps [] d = d
  head_steps (call ∷ calls) d = head_steps calls (head_step call d)

  pub guarded_keeps :
      (P : HeadMcuDriver F → Type 0) (b : Bool) (x y : HeadMcuDriver F × Result Exc Bool)
      → P x.0
      → P y.0
      → P (if b then x else y).0
  guarded_keeps P true x y hx hy = hx
  guarded_keeps P false x y hx hy = hy

  initialized_by_keeps :
      (P : HeadMcuDriver F → Type 0) (x : HeadMcuDriver F × Result Exc Bool)
      → ((d : HeadMcuDriver F) → P d → P (record d { initialized = true }))
      → P x.0
      → P (begun_by x).0
  unfolding begun_by
  initialized_by_keeps P (d, ok true) ready h = ready d h
  initialized_by_keeps P (d, ok false) ready h = h
  initialized_by_keeps P (d, raised e) ready h = h

  -- begin keeps what its flush keeps.
  pub begin_keeps :
      (P : HeadMcuDriver F → Type 0) (opens : Bool) (name : String) (acknowledges : Bool)
      (r1 r2 : Reply) (d : HeadMcuDriver F)
      → ((e : HeadMcuDriver F) → P e → P (record e { initialized = true }))
      → P d
      → P (flush r1 r2 d).0
      → P (begin opens name acknowledges r1 r2 d).0
  unfolding begin
  begin_keeps P opens name acknowledges r1 r2 d ready h flushed =
      guarded_keeps P d.initialized _ _ h (
        guarded_keeps P (not opens) _ _ h (
          guarded_keeps P (not (equal name device_name)) _ _ h (
            guarded_keeps P (not acknowledges) _ _ h
              (initialized_by_keeps P (flush r1 r2 d) ready flushed))))

  step-IsShown : (call : HeadCall F) (d : HeadMcuDriver F) → IsShown d → IsShown (head_step call d)
  step-IsShown (writes axis val) d h =
      IsWrite-IsShown d (write axis val d).0 (write-IsWrite axis val d) h
  step-IsShown (flushes r1 r2) d h = flush-IsShown r1 r2 d h
  step-IsShown (begins opens name acknowledges r1 r2) d h =
      begin_keeps IsShown opens name acknowledges r1 r2 d (λ e shown. shown) h
        (flush-IsShown r1 r2 d h)
  step-IsShown deinits d h = h

  steps-IsShown :
      (calls : List (HeadCall F)) (d : HeadMcuDriver F) → IsShown d → IsShown (head_steps calls d)
  steps-IsShown [] d h = h
  steps-IsShown (call ∷ calls) d h = steps-IsShown calls (head_step call d) (step-IsShown call d h)

  send_motion_cleans :
      (reply : Reply) (motion : Option Bytes) (d : HeadMcuDriver F)
      → IsPart d.mp_dirty (motion_packet d.servos) motion
      → (send_motion reply motion d).1 ≡ delivered
      → (send_motion reply motion d).0.mp_dirty ≡ false
  unfolding send_motion
  send_motion_cleans reply none d (inl h) q = h.0
  send_motion_cleans reply none d (inr (p, _, e)) q = absurd (ground (arith, e))
  send_motion_cleans delivered (some bytes) d part q = refl
  send_motion_cleans lost (some bytes) d part q = absurd (ground (arith, q))
  send_motion_cleans broken (some bytes) d part q = absurd (ground (arith, q))

  send_leds_cleans :
      (reply : Reply) (leds : Option Bytes) (d : HeadMcuDriver F)
      → IsPart d.leds_dirty (pack_leds d.leds) leds
      → (send_leds reply leds d).1 ≡ delivered
      → ((send_leds reply leds d).0.leds_dirty ≡ false)
        × ((send_leds reply leds d).0.mp_dirty ≡ d.mp_dirty)
  unfolding send_leds
  send_leds_cleans reply none d (inl h) q = (h.0, refl)
  send_leds_cleans reply none d (inr (p, _, e)) q = absurd (ground (arith, e))
  send_leds_cleans delivered (some bytes) d part q = (refl, refl)
  send_leds_cleans lost (some bytes) d part q = absurd (ground (arith, q))
  send_leds_cleans broken (some bytes) d part q = absurd (ground (arith, q))

  packets_sent-true :
      (sent sent_leds : Reply) (e f : HeadMcuDriver F)
      → (packets_sent sent sent_leds e f).1 ≡ true
      → (sent ≡ delivered) × (sent_leds ≡ delivered) × ((packets_sent sent sent_leds e f).0 ≡ f)
  unfolding packets_sent
  packets_sent-true delivered delivered e f h = (refl, refl, refl)
  packets_sent-true delivered lost e f h = absurd (ground (arith, h))
  packets_sent-true delivered broken e f h = absurd (ground (arith, h))
  packets_sent-true lost sent_leds e f h = absurd (ground (arith, h))
  packets_sent-true broken sent_leds e f h = absurd (ground (arith, h))

  flush_packed_cleans :
      (r1 r2 : Reply) (left right : ℤ) (d : HeadMcuDriver F)
      (packed : Result Exc (Option Bytes × Option Bytes))
      → neck_left d.servos ≡ ok left
      → neck_right d.servos ≡ ok right
      → pack_dirty left right d ≡ packed
      → (flush_packed r1 r2 d packed).1 ≡ ok true
      → ((flush_packed r1 r2 d packed).0.mp_dirty ≡ false)
        × ((flush_packed r1 r2 d packed).0.leds_dirty ≡ false)
  unfolding flush_packed
  flush_packed_cleans r1 r2 left right d (raised x) left_ok right_ok q h =
      error_ne_true (is_struct_error x) x h
  flush_packed_cleans r1 r2 left right d (ok (motion, leds)) left_ok right_ok q h =
      let parts = pack_dirty-parts left right d motion leds left_ok right_ok q in
      let d1 = in_buffers (motion, leds) d in
      let e = (send_motion r1 motion d1).0 in
      let as_parts = send_packets-parts r1 r2 left right d motion leds q in
      let (sent, sent_leds, same) =
        packets_sent-true (send_motion r1 motion d1).1 (send_leds r2 leds e).1 e
          (send_leds r2 leds e).0 (ok-inj (ap (λ x. ok x.1) (sym as_parts) ∙ h)) in
      let motion_clean = send_motion_cleans r1 motion d1 parts.0 sent in
      let leds_clean =
        send_leds_cleans r2 leds e (send_motion_keeps_leds r1 motion leds d1 parts.1) sent_leds in
      rw (as_parts, same) (leds_clean.1 ∙ motion_clean, leds_clean.0)

  flush_from_cleans :
      (r1 r2 : Reply) (d : HeadMcuDriver F) (motors : Result Exc (Option (ℤ × ℤ)))
      → flush_motors d ≡ motors
      → (flush_from r1 r2 d motors).1 ≡ ok true
      → ((flush_from r1 r2 d motors).0.mp_dirty ≡ false)
        × ((flush_from r1 r2 d motors).0.leds_dirty ≡ false)
  unfolding flush_from
  flush_from_cleans r1 r2 d (raised e) q h = absurd (ground (arith, h))
  flush_from_cleans r1 r2 d (ok none) q h = absurd (ground (arith, h))
  flush_from_cleans r1 r2 d (ok (some (left, right))) q h =
      let (left_ok, right_ok) = flush_motors-ok d left right q in
      flush_packed_cleans r1 r2 left right d (pack_dirty left right d) left_ok right_ok refl h

  flush_cleans :
      (r1 r2 : Reply) (d : HeadMcuDriver F)
      → (flush r1 r2 d).1 ≡ ok true
      → ((flush r1 r2 d).0.mp_dirty ≡ false) × ((flush r1 r2 d).0.leds_dirty ≡ false)
  unfolding flush
  flush_cleans r1 r2 d h = flush_from_cleans r1 r2 d (flush_motors d) refl h

  -- After any calls from the construction on, made one after another, and a flush that returned true
  -- with no write of another thread during it, the last motion packet that the microcontroller got is that of the servos' values, or none was sent and the
  -- servos have their first values; and likewise the packet of the leds.
  pub successful_flush_shows :
      (calls : List (HeadCall F)) (r1 r2 : Reply)
      → (flush r1 r2 (head_steps calls new_head)).1 ≡ ok true
      → let d = (flush r1 r2 (head_steps calls new_head)).0 in
        (((d.shown_motion ≡ none) × (d.servos ≡ initial_servos))
          ⊎ ((p : Bytes) × (motion_packet d.servos ≡ ok p) × (d.shown_motion ≡ some p)))
        × (((d.shown_leds ≡ none) × (d.leds ≡ initial_leds))
            ⊎ ((p : Bytes) × (pack_leds d.leds ≡ ok p) × (d.shown_leds ≡ some p)))
  successful_flush_shows calls r1 r2 h =
      let before = head_steps calls new_head in
      let shown =
        flush-IsShown r1 r2 before
          (steps-IsShown calls new_head (inr (inl (refl, refl)), inr (inl (refl, refl)))) in
      let clean = flush_cleans r1 r2 before h in
      (if_clean clean.0 shown.0, if_clean clean.1 shown.1)
