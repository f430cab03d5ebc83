-- ===== src/Drivers/Body.antt =====
-- mcudrivers/body_driver.py: BodyMcuDriver. What the serial device answers is an argument.
use animacharacter_dev_src.Prelude.{
  ℕ, ℤ, pos, String, string_key, equal, Bool, not, true, false, ◌&&◌, ◌==◌, Option, none, some, [],
  ◌∷◌, Result, Exc, if◌then◌else◌,
}
use animacharacter_dev_src.Prelude.Bytes.{Bytes, same_bytes}
use animacharacter_dev_src.Drivers.Packing.{pack_int16, pack_all}

pub record BodyMcuDriver : Type 0 where
  pub body_initialized : Bool
  pub left_mot : ℤ
  pub right_mot : ℤ
  pub rotation_mot : ℤ

-- BodyMcuDriver(serial_port)
abbrev pub new_body : BodyMcuDriver
new_body = record {
  body_initialized = false;
  left_mot = pos 0;
  right_mot = pos 0;
  rotation_mot = pos 0;
}

abbrev pub body_name : String
body_name = "AC01:BODY"

-- A packet that came in time, by its identifier and its data.
abbrev pub Ack : Type 0
Ack = Option (ℕ × Bytes)

-- the packet is a diagnostic of this code
abbrev pub is_diagnostic : ℕ → Ack → Bool
is_diagnostic code none = false
is_diagnostic code (some (id, message)) = (id == 5) && same_bytes message (code ∷ [])

-- begin, where `init_ack` and `begin_ack` are the packets waited for
unfoldable pub body_begin : Bool → String → Ack → Ack → BodyMcuDriver → BodyMcuDriver × Bool
body_begin opens name init_ack begin_ack d =
    if d.body_initialized
    then (d, true)
    else if not opens
    then (d, false)
    else if not (equal name body_name)
    then (d, false)
    else if not (is_diagnostic 1 init_ack)
    then (d, false)
    else if not (is_diagnostic 2 begin_ack)
    then (d, false)
    else (record d { body_initialized = true }, true)

-- deinit, where the request is sent or not
unfoldable pub body_deinit : Bool → Ack → BodyMcuDriver → BodyMcuDriver × Bool
body_deinit sends ack d =
    if not d.body_initialized
    then (d, true)
    else if not sends
    then (d, false)
    else if not (is_diagnostic 3 ack)
    then (d, false)
    else (record d { body_initialized = false }, true)

-- flush up to send_object, which gets the packet returned; struct.error is not caught
unfoldable pub body_packet : BodyMcuDriver → Result Exc Bytes
body_packet d = pack_all pack_int16 (d.right_mot ∷ d.left_mot ∷ d.rotation_mot ∷ [])
