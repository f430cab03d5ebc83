-- ===== src/Drivers/Head/Packed.antt =====
-- The parts of flush in mcudrivers/head_driver.py: the packets that are packed, and what is sent.
use animacharacter_dev_src.Prelude.{
  ℤ, ◌≡◌, refl, sym, ap, ◌∙◌, ◌⊎◌, inl, inr, Bool, not, true, false, ◌&&◌, Option, none, some,
  arith, Result, ok, raised, ◌>>=◌, Exc, ok-inj, bind-ok, Bool-cases,
}
use animacharacter_dev_src.Prelude.Bytes.{Bytes}
use mathlib.Core.Option.{some-injective}
use animacharacter_dev_src.Drivers.Numbers.{Number}
use animacharacter_dev_src.Drivers.Head.{Servos, HeadMcuDriver}
use animacharacter_dev_src.Drivers.Head.Flush.{
  Reply, delivered, lost, broken, neck_left, neck_right, pack_motion, if_dirty, pack_leds, filled,
  buffer_if, in_buffers, flush_motors, flush_from, pack_dirty, send_motion, send_leds, packets_sent,
  send_packets, flush_packed, flush,
}

-- A packet of what is dirty.
abbrev pub IsPart : Bool → Result Exc Bytes → Option Bytes → Type 0
IsPart dirty packed part =
    ((dirty ≡ false) × (part ≡ none)) ⊎ ((p : Bytes) × (packed ≡ ok p) × (part ≡ some p))

if_dirty-IsPart :
    (dirty : Bool) (packed : Result Exc Bytes) (part : Option Bytes)
    → if_dirty dirty packed ≡ ok part
    → IsPart dirty packed part
if_dirty-IsPart true (ok p) part h = inr (p, refl, sym (ok-inj h))
if_dirty-IsPart true (raised e) part h = absurd (ground (arith, h))
if_dirty-IsPart false packed part h = inl (refl, sym (ok-inj h))

-- The packet of a part that there is.
pub part_packed :
    (dirty : Bool) (packed : Result Exc Bytes) (bytes : Bytes)
    → IsPart dirty packed (some bytes)
    → packed ≡ ok bytes
part_packed dirty packed bytes (inl h) = absurd (ground (arith, h))
part_packed dirty packed bytes (inr (p, q, e)) = ground (arith, q, e)

-- The buffer holds the packet that was made.
buffered :
    (dirty : Bool) (packed : Result Exc Bytes) (part : Option Bytes) (old : Bytes)
    → if_dirty dirty packed ≡ ok part
    → buffer_if dirty (filled part old) ≡ part
buffered true (ok p) part old h = rw (sym (ok-inj h)) refl
buffered true (raised e) part old h = absurd (ground (arith, h))
buffered false packed part old h = ok-inj h

module _ {F : Type 0} ⦃n : Number F⦄ where
  -- the motion packet of a state of the servos
  abbrev pub motion_packet : Servos F → Result Exc Bytes
  motion_packet s = do left ← neck_left s; right ← neck_right s; pack_motion left right s

  -- what was packed of each part
  pub pack_dirty-if :
      (left right : ℤ) (d : HeadMcuDriver F) (motion leds : Option Bytes)
      → pack_dirty left right d ≡ ok (motion, leds)
      → (if_dirty d.mp_dirty (pack_motion left right d.servos) ≡ ok motion)
        × (if_dirty d.leds_dirty (pack_leds d.leds) ≡ ok leds)
  unfolding pack_dirty
  pack_dirty-if left right d motion leds h =
      let (m, motion_ok, h1) =
        bind-ok (if_dirty d.mp_dirty (pack_motion left right d.servos)) _ (motion, leds) h in
      let (l, leds_ok, h2) =
        bind-ok (if_dirty d.leds_dirty (pack_leds d.leds)) _ (motion, leds) h1 in
      (motion_ok ∙ ap (λ x. ok x.0) (ok-inj h2), leds_ok ∙ ap (λ x. ok x.1) (ok-inj h2))

  pub pack_dirty-parts :
      (left right : ℤ) (d : HeadMcuDriver F) (motion leds : Option Bytes)
      → neck_left d.servos ≡ ok left
      → neck_right d.servos ≡ ok right
      → pack_dirty left right d ≡ ok (motion, leds)
      → IsPart d.mp_dirty (motion_packet d.servos) motion
        × IsPart d.leds_dirty (pack_leds d.leds) leds
  pack_dirty-parts left right d motion leds left_ok right_ok h =
      let (motion_ok, leds_ok) = pack_dirty-if left right d motion leds h in
      (
        rw (left_ok, right_ok)
            (if_dirty-IsPart d.mp_dirty (pack_motion left right d.servos) motion motion_ok),
        if_dirty-IsPart d.leds_dirty (pack_leds d.leds) leds leds_ok,
      )

  -- the sending of packets that are given
  abbrev pub send_parts :
      Reply → Reply → Option Bytes → Option Bytes → HeadMcuDriver F → HeadMcuDriver F × Bool
  send_parts r1 r2 motion leds d =
      let e = (send_motion r1 motion d).0 in
      packets_sent (send_motion r1 motion d).1 (send_leds r2 leds e).1 e (send_leds r2 leds e).0

  send_motion_keeps_buffer :
      (reply : Reply) (motion : Option Bytes) (d : HeadMcuDriver F)
      → ((send_motion reply motion d).0.leds_dirty ≡ d.leds_dirty)
        × ((send_motion reply motion d).0.leds_buffer ≡ d.leds_buffer)
  unfolding send_motion
  send_motion_keeps_buffer reply none d = (refl, refl)
  send_motion_keeps_buffer delivered (some bytes) d = (refl, refl)
  send_motion_keeps_buffer lost (some bytes) d = (refl, refl)
  send_motion_keeps_buffer broken (some bytes) d = (refl, refl)

  -- What is sent after the packing are the packets that were made.
  pub send_packets-parts :
      (r1 r2 : Reply) (left right : ℤ) (d : HeadMcuDriver F) (motion leds : Option Bytes)
      → pack_dirty left right d ≡ ok (motion, leds)
      → send_packets r1 r2 (in_buffers (motion, leds) d)
        ≡ send_parts r1 r2 motion leds (in_buffers (motion, leds) d)
  unfolding send_packets
  send_packets-parts r1 r2 left right d motion leds h =
      let (motion_ok, leds_ok) = pack_dirty-if left right d motion leds h in
      rw
        (
          buffered d.mp_dirty (pack_motion left right d.servos) motion d.motion_buffer motion_ok,
          (send_motion_keeps_buffer r1 motion (in_buffers (motion, leds) d)).0,
          (send_motion_keeps_buffer r1 motion (in_buffers (motion, leds) d)).1,
          buffered d.leds_dirty (pack_leds d.leds) leds d.leds_buffer leds_ok,
        )
        refl

  pub flush_motors-ok :
      (d : HeadMcuDriver F) (left right : ℤ)
      → flush_motors d ≡ ok (some (left, right))
      → (neck_left d.servos ≡ ok left) × (neck_right d.servos ≡ ok right)
  unfolding flush_motors
  flush_motors-ok d left right h = elim (Bool-cases (not d.mp_dirty && not d.leds_dirty)) [
    | inl clean ↦ absurd (ground (arith, rw clean at h))
    | inr dirty ↦
        (let (l, left_ok, h1) =
            bind-ok (neck_left d.servos) _ (some (left, right)) (rw dirty at h) in
          let (r, right_ok, h2) = bind-ok (neck_right d.servos) _ (some (left, right)) h1 in
          let same = some-injective (l, r) (left, right) (ok-inj h2) in
          (left_ok ∙ ap (λ x. ok x.0) same, right_ok ∙ ap (λ x. ok x.1) same))
  ]

  flush_from_keeps :
      (P : HeadMcuDriver F → Type 0) (r1 r2 : Reply) (d : HeadMcuDriver F)
      (motors : Result Exc (Option (ℤ × ℤ)))
      → flush_motors d ≡ motors
      → P d
      → ((left right : ℤ)
          → neck_left d.servos ≡ ok left
          → neck_right d.servos ≡ ok right
          → P (flush_packed r1 r2 d (pack_dirty left right d)).0)
      → P (flush_from r1 r2 d motors).0
  unfolding flush_from
  flush_from_keeps P r1 r2 d (raised e) q h packed = h
  flush_from_keeps P r1 r2 d (ok none) q h packed = h
  flush_from_keeps P r1 r2 d (ok (some (left, right))) q h packed =
      let (left_ok, right_ok) = flush_motors-ok d left right q in packed left right left_ok right_ok

  -- flush keeps what its packing and sending keep.
  pub flush_keeps :
      (P : HeadMcuDriver F → Type 0) (r1 r2 : Reply) (d : HeadMcuDriver F)
      → P d
      → ((left right : ℤ)
          → neck_left d.servos ≡ ok left
          → neck_right d.servos ≡ ok right
          → P (flush_packed r1 r2 d (pack_dirty left right d)).0)
      → P (flush r1 r2 d).0
  unfolding flush
  flush_keeps P r1 r2 d h packed = flush_from_keeps P r1 r2 d (flush_motors d) refl h packed
