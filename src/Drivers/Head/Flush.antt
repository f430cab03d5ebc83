-- ===== src/Drivers/Head/Flush.antt =====
-- mcudrivers/head_driver.py: flush, begin and deinit of HeadMcuDriver. What the serial device
-- answers is an argument of each.
use animacharacter_dev_src.Prelude.{
  String, equal, string_key, ℤ, pos, Bool, not, true, false, ◌&&◌, Option, none, some, List, [],
  ◌∷◌, ◌++◌, Result, ok, raised, ◌>>=◌, Exc, struct_error, if◌then◌else◌,
}
use animacharacter_dev_src.Prelude.Bytes.{Bytes}
use animacharacter_dev_src.Drivers.Numbers.{Number}
use animacharacter_dev_src.Drivers.Packing.{pack_uint8, pack_int16, pack_all}
use animacharacter_dev_src.Drivers.Head.{Leds, Servos, HeadMcuDriver}

-- send_object returns true, returns false, or raises
pub data Reply : Type 0 where
  delivered lost broken : Reply

module _ {F : Type 0} ⦃n : Number F⦄ where
  -- int(offset + pitch * scale), where `offset` is the motor's offset with the tilt's part
  unfoldable pub neck_motor : F → Servos F → Result Exc ℤ
  neck_motor offset s = n.to_int (n.add_n offset (n.mul_n s.pitch (n.of_int (pos 50))))

  unfoldable pub neck_left : Servos F → Result Exc ℤ
  neck_left s = neck_motor (n.sub_n (n.of_int (pos 150)) (n.mul_n s.tilt (n.of_int (pos 35)))) s

  unfoldable pub neck_right : Servos F → Result Exc ℤ
  neck_right s = neck_motor (n.add_n (n.of_int (pos 270)) (n.mul_n s.tilt (n.of_int (pos 35)))) s

  unfoldable pub small_fields : Servos F → Result Exc (List ℤ)
  small_fields s = do
    mouth ← n.to_int (n.mul_n s.mouth_at (n.of_int (pos 255)))
    left ← n.to_int (n.mul_n s.ear_left (n.of_int (pos 127)))
    right ← n.to_int (n.mul_n s.ear_right (n.of_int (pos 127)))
    lid_left ← n.to_int (n.mul_n s.lid_left s.open_factor)
    lid_right ← n.to_int (n.mul_n s.lid_right s.open_factor)
    ok (mouth ∷ left ∷ right ∷ lid_left ∷ lid_right ∷ [])

  unfoldable pub large_fields : ℤ → ℤ → Servos F → Result Exc (List ℤ)
  large_fields left_motor right_motor s = do
    left ← n.to_int s.eye_left
    right ← n.to_int s.eye_right
    pitch ← n.to_int s.eyes_at
    ok (left ∷ right ∷ pitch ∷ left_motor ∷ right_motor ∷ [])

  -- mp_packer, after all its arguments were computed
  unfoldable pub pack_motion : ℤ → ℤ → Servos F → Result Exc Bytes
  pack_motion left_motor right_motor s = do
    small ← small_fields s
    large ← large_fields left_motor right_motor s
    head ← pack_all pack_uint8 small
    rest ← pack_all pack_int16 large
    ok (head ++ rest)

abbrev pub if_dirty : Bool → Result Exc Bytes → Result Exc (Option Bytes)
if_dirty true packed = do bytes ← packed; ok (some bytes)
if_dirty false packed = ok none

-- a buffer after pack_into, if a packet was made
abbrev pub filled : Option Bytes → Bytes → Bytes
filled none old = old
filled (some packet) old = packet

abbrev pub buffer_if : Bool → Bytes → Option Bytes
buffer_if true buffer = some buffer
buffer_if false buffer = none

-- `except struct.error: return False`; other exceptions escape
abbrev pub is_struct_error : Exc → Bool
is_struct_error struct_error = true
is_struct_error _ = false

abbrev pub succeeded : Reply → Bool
succeeded delivered = true
succeeded lost = false
succeeded broken = false

abbrev pub device_name : String
device_name = "TEODORE:api-v0a:HEAD"

-- leds_packer
unfoldable pub pack_leds : Leds → Result Exc Bytes
pack_leds l = pack_all pack_int16 (l.red ∷ l.green ∷ l.blue ∷ l.ring_1 ∷ l.ring_2 ∷ [])

module _ {F : Type 0} ⦃n : Number F⦄ where
  -- flush up to where it takes the lock: nothing if nothing is dirty, else the neck's motors
  unfoldable pub flush_motors : HeadMcuDriver F → Result Exc (Option (ℤ × ℤ))
  flush_motors d = if not d.mp_dirty && not d.leds_dirty then ok none else do
    left_motor ← neck_left d.servos
    right_motor ← neck_right d.servos
    ok (some (left_motor, right_motor))

  -- under the lock: the packets of what is dirty
  unfoldable pub pack_dirty : ℤ → ℤ → HeadMcuDriver F → Result Exc (Option Bytes × Option Bytes)
  pack_dirty left_motor right_motor d = do
    motion ← if_dirty d.mp_dirty (pack_motion left_motor right_motor d.servos)
    leds ← if_dirty d.leds_dirty (pack_leds d.leds)
    ok (motion, leds)

  -- the buffers with the packets that were made
  abbrev pub in_buffers : Option Bytes × Option Bytes → HeadMcuDriver F → HeadMcuDriver F
  in_buffers parts d = record d {
    motion_buffer = filled parts.0 d.motion_buffer;
    leds_buffer = filled parts.1 d.leds_buffer;
  }

  -- The I/O phase sends a packet there is; a packet sent is what the microcontroller shows.
  unfoldable pub send_motion : Reply → Option Bytes → HeadMcuDriver F → HeadMcuDriver F × Reply
  send_motion reply none d = (d, delivered)
  send_motion delivered (some bytes) d =
      (record d { mp_dirty = false; shown_motion = some bytes }, delivered)
  send_motion lost (some bytes) d = (d, lost)
  send_motion broken (some bytes) d = (d, broken)

  unfoldable pub send_leds : Reply → Option Bytes → HeadMcuDriver F → HeadMcuDriver F × Reply
  send_leds reply none d = (d, delivered)
  send_leds delivered (some bytes) d =
      (record d { leds_dirty = false; shown_leds = some bytes }, delivered)
  send_leds lost (some bytes) d = (d, lost)
  send_leds broken (some bytes) d = (d, broken)

  -- An exception in the I/O phase ends it, and flush returns false: `e` is the state after the
  -- motion packet and `f` that after both.
  unfoldable pub packets_sent :
      Reply → Reply → HeadMcuDriver F → HeadMcuDriver F → HeadMcuDriver F × Bool
  packets_sent broken sent_leds e f = (e, false)
  packets_sent lost sent_leds e f = (f, false)
  packets_sent delivered sent_leds e f = (f, succeeded sent_leds)

  -- the I/O phase, without the lock: what is dirty by now is sent from its buffer
  unfoldable pub send_packets : Reply → Reply → HeadMcuDriver F → HeadMcuDriver F × Bool
  send_packets motion_reply leds_reply d =
      let (e, sent) = send_motion motion_reply (buffer_if d.mp_dirty d.motion_buffer) d in
      let (f, sent_leds) = send_leds leds_reply (buffer_if e.leds_dirty e.leds_buffer) e in
      packets_sent sent sent_leds e f

  -- A packing that failed is made anew before anything is sent, so that its buffers are kept here.
  unfoldable pub flush_packed :
      Reply
      → Reply
      → HeadMcuDriver F
      → Result Exc (Option Bytes × Option Bytes)
      → HeadMcuDriver F × Result Exc Bool
  flush_packed motion_reply leds_reply d (raised e) =
      (d, if is_struct_error e then ok false else raised e)
  flush_packed motion_reply leds_reply d (ok parts) =
      let (e, success) = send_packets motion_reply leds_reply (in_buffers parts d) in
      (e, ok success)

  unfoldable pub flush_from :
      Reply
      → Reply
      → HeadMcuDriver F
      → Result Exc (Option (ℤ × ℤ))
      → HeadMcuDriver F × Result Exc Bool
  flush_from motion_reply leds_reply d (raised e) = (d, raised e)
  flush_from motion_reply leds_reply d (ok none) = (d, ok false)
  flush_from motion_reply leds_reply d (ok (some (left_motor, right_motor))) =
      flush_packed motion_reply leds_reply d (pack_dirty left_motor right_motor d)

  -- flush, with no call of another thread between its parts
  unfoldable pub flush : Reply → Reply → HeadMcuDriver F → HeadMcuDriver F × Result Exc Bool
  flush motion_reply leds_reply d = flush_from motion_reply leds_reply d (flush_motors d)

  -- begin from the flush of the initial state on
  unfoldable pub begun_by : HeadMcuDriver F × Result Exc Bool → HeadMcuDriver F × Result Exc Bool
  begun_by (d, ok true) = (record d { initialized = true }, ok true)
  begun_by (d, ok false) = (d, ok false)
  begun_by (d, raised e) = (d, raised e)

  -- begin, where the device opens or not, gives its name, and acknowledges in time or not
  unfoldable pub begin :
      Bool → String → Bool → Reply → Reply → HeadMcuDriver F → HeadMcuDriver F × Result Exc Bool
  begin opens name acknowledges motion_reply leds_reply d =
      if d.initialized
      then (d, ok true)
      else if not opens
      then (d, ok false)
      else if not (equal name device_name)
      then (d, ok false)
      else if not acknowledges
      then (d, ok false)
      else begun_by (flush motion_reply leds_reply d)

  -- deinit returns true always
  abbrev pub deinit : HeadMcuDriver F → HeadMcuDriver F
  deinit d = record d { initialized = false }
