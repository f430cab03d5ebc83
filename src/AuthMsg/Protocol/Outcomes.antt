-- ===== src/AuthMsg/Protocol/Outcomes.antt =====
-- How decode_packet of authmsg/protocol/protocol.py ends on a packet of bytes.
use animacharacter_dev_src.Prelude.{
  ℕ, ◌<◌, ◌≡◌, refl, sym, ◌∙◌, ◌⊎◌, inl, inr, Bool, true, false, Option, length, take, drop,
  length-take, All-take, arith, ok, raised, Exc, framing_error, authentication_error,
  sequence_error, Bool-cases, ltb, ◌++◌,
}
use animacharacter_dev_src.Prelude.Bytes.{
  Bytes, IsBytes, take_back, drop_back, from_bytes, same_bytes, to_bytes-from_bytes,
}
use animacharacter_dev_src.AuthMsg.Protocol.{
  Mac, is_replay, checked_number, make_signature, validate_signature, decode_parts, decode_packet,
}

-- The errors that unpack catches.
pub data IsInvalid : Exc → Type 0 where
  bad_framing : IsInvalid framing_error
  bad_signature : IsInvalid authentication_error
  bad_sequence : IsInvalid sequence_error

checked_number-cases :
    (last : Option ℕ) (sequence : ℕ) (payload : Bytes) (valid : Bool)
    → ((e : Exc) × IsInvalid e × (checked_number last sequence payload valid ≡ raised e))
      ⊎ (checked_number last sequence payload valid ≡ ok (sequence, payload))
unfolding checked_number
checked_number-cases last sequence payload false = inl (authentication_error, bad_signature, refl)
checked_number-cases last sequence payload true = elim (Bool-cases (is_replay last sequence)) [
  | inl h ↦ inl (sequence_error, bad_sequence, rw h refl)
  | inr h ↦ inr (rw h refl)
]

module _ (mac : Mac) (psk : Bytes) (last : Option ℕ) where
  decode_parts-checked_number :
      (number tag payload : Bytes)
      → IsBytes number
      → length number ≡ 8
      → (valid : Bool) × (decode_parts mac psk last (from_bytes number) tag payload
          ≡ checked_number last (from_bytes number) payload valid)
  unfolding decode_parts validate_signature make_signature
  decode_parts-checked_number number tag payload bytes h = (
    same_bytes (mac psk (number ++ payload)) tag,
    rw (to_bytes-from_bytes 8 number bytes (sym h)) refl,
  )

  pub decode_packet-cases :
      (packet : Bytes)
      → IsBytes packet
      → ((e : Exc) × IsInvalid e × (decode_packet mac packet psk last ≡ raised e))
        ⊎ ((s : ℕ) × (p : Bytes) × (decode_packet mac packet psk last ≡ ok (s, p)))
  unfolding decode_packet
  decode_packet-cases packet bytes = elim (Bool-cases (ltb (length packet) 40)) [
    | inl h ↦ inl (framing_error, bad_framing, rw h refl)
    | inr h ↦
        let number = take 8 packet in
        let payload = drop 8 (take_back 32 packet) in
        let (valid, same) =
          decode_parts-checked_number number (drop_back 32 packet) payload
            (All-take (λ b. b < 256) 8 packet bytes) (length-take 8 packet (ground (arith, h))) in
        elim (checked_number-cases last (from_bytes number) payload valid) [
          | inl (e, invalid, q) ↦ inl (e, invalid, rw h (same ∙ q))
          | inr q ↦ inr (from_bytes number, payload, rw h (same ∙ q))
        ]
  ]
