-- ===== src/AuthMsg/Protocol/Exact.antt =====
-- What decode_packet of authmsg/protocol/protocol.py accepts.
use animacharacter_dev_src.Prelude.{
  ℕ, ◌+◌, ◌-◌, ◌≤◌, ◌<◌, ◌≡◌, refl, sym, ap, ◌∙◌, ◌↔◌, inl, inr, Bool, true, false, Option, ◌++◌,
  length, take, drop, length-append, take_exact, drop_exact, ltb, take-drop, take-take, length-take,
  All-take, arith, ok, Result-cases, ok-inj, Bool-cases,
}
use animacharacter_dev_src.Prelude.Bytes.{
  Bytes, IsBytes, take_back, drop_back, to_bytes, to_bytes-cases, from_bytes, same_bytes,
  same_bytes_sound, same_bytes_refl, big_endian, to_bytes-from_bytes, to_bytes_reads,
}
use mathlib.Core.List.{append_assoc}
use animacharacter_dev_src.AuthMsg.Protocol.{
  Mac, is_replay, checked_number, make_signature, validate_signature, encode_packet, decode_parts,
  decode_packet,
}

split_join : (xs ys : Bytes) → take 8 xs ++ (drop 8 xs ++ ys) ≡ xs ++ ys
split_join xs ys =
    sym (append_assoc (take 8 xs) (drop 8 xs) ys) ∙ ap (λ r. r ++ ys) (take-drop 8 xs)

-- A packet is its number, its payload and its tag.
packet_parts :
    (packet : Bytes)
    → 40 ≤ length packet
    → take 8 packet ++ (drop 8 (take_back 32 packet) ++ drop_back 32 packet) ≡ packet
packet_parts packet h =
    ap (λ r. r ++ (drop 8 (take_back 32 packet) ++ drop_back 32 packet))
      (sym (take-take 8 (length packet - 32) packet (omega (arith, h))))
    ∙ split_join (take_back 32 packet) (drop_back 32 packet)
    ∙ take-drop (length packet - 32) packet

checked_ok :
    (last : Option ℕ) (sequence s : ℕ) (payload p : Bytes) (valid : Bool)
    → checked_number last sequence payload valid ≡ ok (s, p)
    → (valid ≡ true) × (is_replay last sequence ≡ false) × (sequence ≡ s) × (payload ≡ p)
unfolding checked_number
checked_ok last sequence s payload p false h = ground (arith, h)
checked_ok last sequence s payload p true h = elim (Bool-cases (is_replay last sequence)) [
  | inl q ↦ ground (arith, h, q)
  | inr q ↦ ground (arith, h, q)
]

module _ (mac : Mac) (psk : Bytes) where
  decode_parts-signed :
      (last : Option ℕ) (sequence : ℕ) (tag payload : Bytes)
      → make_signature mac psk sequence payload ≡ ok tag
      → decode_parts mac psk last sequence tag payload ≡ checked_number last sequence payload true
  unfolding decode_parts validate_signature
  decode_parts-signed last sequence tag payload h = rw (h, same_bytes_refl tag) refl

  decode_parts_ok :
      (last : Option ℕ) (sequence s : ℕ) (tag payload p : Bytes)
      → decode_parts mac psk last sequence tag payload ≡ ok (s, p)
      → (make_signature mac psk sequence payload ≡ ok tag)
        × (is_replay last sequence ≡ false)
        × (sequence ≡ s)
        × (payload ≡ p)
  unfolding decode_parts validate_signature
  decode_parts_ok last sequence s tag payload p h =
      elim (Result-cases (make_signature mac psk sequence payload)) [
        | inl (e, q) ↦ absurd (ground (arith, h, q))
        | inr (expected, q) ↦
            let facts =
              checked_ok last sequence s payload p (same_bytes expected tag) (rw q at h) in
            (q ∙ ap ok (same_bytes_sound expected tag facts.0), facts.1, facts.2, facts.3)
      ]

  encode_packet-signed :
      (sequence : ℕ) (payload tag number : Bytes)
      → make_signature mac psk sequence payload ≡ ok tag
      → to_bytes 8 sequence ≡ ok number
      → encode_packet mac sequence payload psk ≡ ok (number ++ payload ++ tag)
  unfolding encode_packet
  encode_packet-signed sequence payload tag number signed written = rw (signed, written) refl

  encode_packet_ok :
      (sequence : ℕ) (payload packet : Bytes)
      → encode_packet mac sequence payload psk ≡ ok packet
      → (number : Bytes) × (make_signature mac psk sequence payload
          ≡ ok (mac psk (number ++ payload)))
        × (to_bytes 8 sequence ≡ ok number)
        × (number ++ payload ++ mac psk (number ++ payload) ≡ packet)
  unfolding encode_packet make_signature
  encode_packet_ok sequence payload packet h = elim (to_bytes-cases 8 sequence) [
    | inl (_, q) ↦ absurd (ground (arith, h, q))
    | inr (_, q) ↦ (big_endian 8 sequence, rw q refl, q, ok-inj (rw q at h))
  ]

  -- A packet put together from its parts is taken apart again.
  decode_packet-parts :
      (last : Option ℕ) (number payload tag : Bytes)
      → length number ≡ 8
      → length tag ≡ 32
      → decode_packet mac (number ++ payload ++ tag) psk last
        ≡ decode_parts mac psk last (from_bytes number) tag payload
  unfolding decode_packet
  decode_packet-parts last number payload tag h8 h32 =
      rw
        (
          long_enough (length (number ++ payload ++ tag)) whole,
          take_exact (length (number ++ payload ++ tag) - 32) (number ++ payload) tag
              (omega (arith, whole)),
          drop_exact (length (number ++ payload ++ tag) - 32) (number ++ payload) tag
              (omega (arith, whole)),
          append_assoc number payload tag,
          take_exact 8 number (payload ++ tag) (sym h8),
          drop_exact 8 number payload (sym h8),
        )
        refl
    where
      whole : length (number ++ payload ++ tag) ≡ length (number ++ payload) + 32
      whole = omega (arith, length-append (number ++ payload) tag, h32)

      long_enough : (n : ℕ) → n ≡ length (number ++ payload) + 32 → ltb n 40 ≡ false
      long_enough n h = ground (arith, h, length-append number payload, h8)

  decode_packet-long :
      (last : Option ℕ) (packet : Bytes) (s : ℕ) (p : Bytes)
      → decode_packet mac packet psk last ≡ ok (s, p)
      → (40 ≤ length packet)
        × (decode_parts mac psk last
              (from_bytes (take 8 packet))
              (drop_back 32 packet)
              (drop 8 (take_back 32 packet))
            ≡ ok (s, p))
  unfolding decode_packet
  decode_packet-long last packet s p h = elim (Bool-cases (ltb (length packet) 40)) [
    | inl q ↦ absurd (ground (arith, h, q))
    | inr q ↦ (ground (arith, q), rw q at h)
  ]

  -- What was decoded is what encoding gives.
  pub decoded_encodes :
      (last : Option ℕ) (packet : Bytes) (s : ℕ) (p : Bytes)
      → IsBytes packet
      → decode_packet mac packet psk last ≡ ok (s, p)
      → (encode_packet mac s p psk ≡ ok packet) × (is_replay last s ≡ false)
  decoded_encodes last packet s p bytes h =
      let long = decode_packet-long last packet s p h in
      let facts =
        decode_parts_ok last (from_bytes (take 8 packet)) s (drop_back 32 packet)
          (drop 8 (take_back 32 packet)) p long.1 in
      let written =
        to_bytes-from_bytes 8 (take 8 packet) (All-take (λ b. b < 256) 8 packet bytes)
          (sym (length-take 8 packet (omega (arith, long.0)))) in
      let encoded =
        encode_packet-signed (from_bytes (take 8 packet)) (drop 8 (take_back 32 packet))
          (drop_back 32 packet) (take 8 packet) facts.0 written in
      let whole =
        append_assoc (take 8 packet) (drop 8 (take_back 32 packet)) (drop_back 32 packet)
        ∙ packet_parts packet long.0 in
      (rw (sym facts.2, sym facts.3) (encoded ∙ ap ok whole), rw (sym facts.2) facts.1)

  -- What was encoded is decoded, if its number is new.
  pub encoded_decodes :
      (last : Option ℕ) (packet : Bytes) (s : ℕ) (p : Bytes)
      → ((msg : Bytes) → length (mac psk msg) ≡ 32)
      → encode_packet mac s p psk ≡ ok packet
      → decode_packet mac packet psk last ≡ checked_number last s p true
  encoded_decodes last packet s p mac_size h =
      let (number, signed, written, whole) = encode_packet_ok s p packet h in
      let reads = to_bytes_reads 8 s number written in
      rw
        (
          sym whole,
          decode_packet-parts last number p (mac psk (number ++ p)) reads.0
              (mac_size (number ++ p)),
          reads.1,
        )
        (decode_parts-signed last s (mac psk (number ++ p)) p signed)

  -- For a packet of bytes, decode_packet returns a number and a payload exactly if encode_packet
  -- makes this packet of them and the number is larger than the last one, where there is a last.
  -- The HMAC is assumed to have 32 bytes.
  pub decode_exact :
      (last : Option ℕ) (packet : Bytes) (sequence : ℕ) (payload : Bytes)
      → ((msg : Bytes) → length (mac psk msg) ≡ 32)
      → IsBytes packet
      → (decode_packet mac packet psk last ≡ ok (sequence, payload))
        ↔ ((encode_packet mac sequence payload psk ≡ ok packet) × (is_replay last sequence ≡ false))
  unfolding checked_number
  decode_exact last packet sequence payload mac_size bytes = (
    decoded_encodes last packet sequence payload bytes,
    λ (h : (encode_packet mac sequence payload psk ≡ ok packet)
          × (is_replay last sequence ≡ false)).
        encoded_decodes last packet sequence payload mac_size h.0 ∙ rw h.1 refl,
  )
