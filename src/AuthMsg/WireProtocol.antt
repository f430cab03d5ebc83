-- ===== src/AuthMsg/WireProtocol.antt =====
-- authmsg/protocol/wire_protocol.py: SecureWireProtocol. A method takes the object and returns it
-- with its result; pack returns the object also where it raises.
pub mod Replay
pub mod Channel
use animacharacter_dev_src.Prelude.{
  ℕ, ◌+◌, Option, none, some, List, [], ◌∷◌, Result, ok, raised, Exc, framing_error,
  authentication_error, sequence_error,
}
use animacharacter_dev_src.Prelude.Bytes.{Bytes}
use animacharacter_dev_src.AuthMsg.Protocol.{Mac, encode_packet, decode_packet}

pub record SecureWireProtocol : Type 0 where
  pub psk : Bytes
  pub send_sequence : ℕ
  pub last_received_sequence : ℕ

-- SecureWireProtocol(psk)
abbrev pub new_protocol : Bytes → SecureWireProtocol
new_protocol psk = record { psk = psk; send_sequence = 0; last_received_sequence = 0 }

abbrev pub set_psk : Bytes → SecureWireProtocol → SecureWireProtocol
set_psk psk p = record p { psk = psk }

module _ (mac : Mac) where
  unfoldable pub pack : Bytes → SecureWireProtocol → SecureWireProtocol × Result Exc Bytes
  pack msg p = (
    record p { send_sequence = p.send_sequence + 1 },
    encode_packet mac (p.send_sequence + 1) msg p.psk,
  )

  -- unpack_raise from the decoded packet on
  unfoldable pub received :
      SecureWireProtocol → Result Exc (ℕ × Bytes) → SecureWireProtocol × Result Exc Bytes
  received p (ok (seq, msg)) = (record p { last_received_sequence = seq }, ok msg)
  received p (raised e) = (p, raised e)

  unfoldable pub unpack_raise : Bytes → SecureWireProtocol → SecureWireProtocol × Result Exc Bytes
  unpack_raise frame p = received p (decode_packet mac frame p.psk (some p.last_received_sequence))

  -- `except (FramingError, AuthenticationError, SequenceError): return None`
  unfoldable pub none_if_invalid :
      SecureWireProtocol × Result Exc Bytes → SecureWireProtocol × Result Exc (Option Bytes)
  none_if_invalid (p, ok msg) = (p, ok (some msg))
  none_if_invalid (p, raised framing_error) = (p, ok none)
  none_if_invalid (p, raised authentication_error) = (p, ok none)
  none_if_invalid (p, raised sequence_error) = (p, ok none)
  none_if_invalid (p, raised e) = (p, raised e)

  unfoldable pub unpack :
      Bytes → SecureWireProtocol → SecureWireProtocol × Result Exc (Option Bytes)
  unpack frame p = none_if_invalid (unpack_raise frame p)

  -- A receiver that takes one frame after another.
  unfoldable pub unpack_all :
      List Bytes → SecureWireProtocol → SecureWireProtocol × List (Result Exc (Option Bytes))
  unpack_all [] p = (p, [])
  unpack_all (frame ∷ frames) p =
      let (q, msg) = unpack frame p in let (r, msgs) = unpack_all frames q in (r, msg ∷ msgs)
