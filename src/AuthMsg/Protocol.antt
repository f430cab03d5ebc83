-- ===== src/AuthMsg/Protocol.antt =====
-- authmsg/protocol/crypto.py and authmsg/protocol/protocol.py: signed packets. HMAC-SHA256 is the
-- parameter `mac`, of a key and the data.
pub mod Exact
pub mod Size
pub mod Outcomes
use animacharacter_dev_src.Prelude.{
  ℕ, ◌+◌, ◌-◌, Bool, not, true, false, Option, none, some, List, [], ◌∷◌, ◌++◌, length, take, drop,
  Result, ok, raised, ◌>>=◌, Exc, value_error, framing_error, authentication_error, sequence_error,
  ltb, leb, if◌then◌else◌,
}
use animacharacter_dev_src.Prelude.Bytes.{
  Bytes, take_back, drop_back, to_bytes, from_bytes, same_bytes,
}

abbrev pub sequence_size : ℕ
sequence_size = 8

abbrev pub hmac_size : ℕ
hmac_size = 32

abbrev pub min_packet_size : ℕ
min_packet_size = sequence_size + hmac_size

abbrev pub max_udp_payload : ℕ
max_udp_payload = 65507

-- `last_sequence is not None and sequence <= last_sequence`
abbrev pub is_replay : Option ℕ → ℕ → Bool
is_replay none sequence = false
is_replay (some last_sequence) sequence = leb sequence last_sequence

abbrev pub Mac : Type 0
Mac = Bytes → Bytes → Bytes

-- decode_packet from the outcome of the signature's validation on
unfoldable pub checked_number : Option ℕ → ℕ → Bytes → Bool → Result Exc (ℕ × Bytes)
checked_number last_sequence sequence payload valid =
    if not valid
    then raised authentication_error
    else if is_replay last_sequence sequence
    then raised sequence_error
    else ok (sequence, payload)

module _ (mac : Mac) where
  unfoldable pub make_signature : Bytes → ℕ → Bytes → Result Exc Bytes
  make_signature psk sequence payload = do
    sequence_bytes ← to_bytes sequence_size sequence
    ok (mac psk (sequence_bytes ++ payload))

  unfoldable pub validate_signature : Bytes → ℕ → Bytes → Bytes → Result Exc Bool
  validate_signature psk sequence payload tag = do
    expected ← make_signature psk sequence payload
    ok (same_bytes expected tag)

  unfoldable pub encode_packet : ℕ → Bytes → Bytes → Result Exc Bytes
  encode_packet sequence payload psk = do
    signature ← make_signature psk sequence payload
    sequence_bytes ← to_bytes sequence_size sequence
    ok (sequence_bytes ++ payload ++ signature)

  -- What decode_packet does with the packet's parts.
  unfoldable pub decode_parts : Bytes → Option ℕ → ℕ → Bytes → Bytes → Result Exc (ℕ × Bytes)
  decode_parts psk last_sequence sequence tag payload = do
    valid ← validate_signature psk sequence payload tag
    checked_number last_sequence sequence payload valid

  unfoldable pub decode_packet : Bytes → Bytes → Option ℕ → Result Exc (ℕ × Bytes)
  decode_packet packet psk last_sequence =
      if ltb (length packet) min_packet_size
      then raised framing_error
      else decode_parts psk last_sequence (from_bytes (take sequence_size packet))
          (drop_back hmac_size packet) (drop sequence_size (take_back hmac_size packet))

unfoldable pub ensure_valid_packet_size : Bytes → Result Exc Unit
ensure_valid_packet_size payload =
    if ltb (max_udp_payload - min_packet_size) (length payload) then raised value_error else ok tt
