-- ===== src/AuthMsg/Protocol/Size.antt =====
-- How large the packets of authmsg/protocol/protocol.py are.
use animacharacter_dev_src.Prelude.{
  ℕ, ◌+◌, ◌^◌, ◌≤◌, ◌<◌, ◌≡◌, refl, ◌↔◌, ◌⊎◌, inl, inr, ◌++◌, length, length-append, arith, ok,
  raised, overflow_error, Bool-cases, ltb,
}
use animacharacter_dev_src.Prelude.Bytes.{Bytes, to_bytes-cases, big_endian, length-big_endian}
use animacharacter_dev_src.AuthMsg.Protocol.{
  Mac, max_udp_payload, make_signature, encode_packet, ensure_valid_packet_size,
}

ensure_valid_packet_size_lem :
    (payload : Bytes) → (ensure_valid_packet_size payload ≡ ok tt) ↔ (length payload ≤ 65467)
unfolding ensure_valid_packet_size
ensure_valid_packet_size_lem payload = elim (Bool-cases (ltb 65467 (length payload))) [
  | inl h ↦ (λ q. absurd (ground (arith, h, q)), λ q. absurd (ground (arith, h, q)))
  | inr h ↦ (λ q. ground (arith, h), λ q. ground (arith, h))
]

module _ (mac : Mac) (psk : Bytes) where
  packet_size :
      (number payload : Bytes)
      → ((msg : Bytes) → length (mac psk msg) ≡ 32)
      → length number ≡ 8
      → length (number ++ payload ++ mac psk (number ++ payload)) ≡ 40 + length payload
  packet_size number payload mac_size h = omega (
    arith,
    length-append (number ++ payload) (mac psk (number ++ payload)),
    length-append number payload,
    mac_size (number ++ payload),
    h,
  )

  -- encode_packet raises OverflowError for a sequence number of more than 64 bits and otherwise
  -- returns a packet that is 40 bytes longer than its payload, so that it fits a UDP datagram
  -- exactly if ensure_valid_packet_size lets the payload pass. The HMAC is assumed to have 32 bytes.
  pub encode_packet_bounds :
      (sequence : ℕ) (payload : Bytes)
      → ((msg : Bytes) → length (mac psk msg) ≡ 32)
      → ((2 ^ 64 ≤ sequence) × (encode_packet mac sequence payload psk ≡ raised overflow_error))
        ⊎ ((sequence < 2 ^ 64)
            × ((packet : Bytes) × (encode_packet mac sequence payload psk ≡ ok packet)
                × (length packet ≡ 40 + length payload)
                × ((ensure_valid_packet_size payload ≡ ok tt) ↔ (length packet ≤ max_udp_payload))))
  unfolding encode_packet make_signature
  encode_packet_bounds sequence payload mac_size = elim (to_bytes-cases 8 sequence) [
    | inl (large, q) ↦ inl (large, rw q refl)
    | inr (small, q) ↦
        let number = big_endian 8 sequence in
        let size = packet_size number payload mac_size (length-big_endian 8 sequence) in
        let fits = ensure_valid_packet_size_lem payload in
        inr (
          small,
          (
            number ++ payload ++ mac psk (number ++ payload),
            rw q refl,
            size,
            (λ h. omega (arith, fits.0 h, size), λ h. fits.1 (omega (arith, h, size))),
          ),
        )
  ]
