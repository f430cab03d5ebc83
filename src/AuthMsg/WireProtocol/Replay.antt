-- ===== src/AuthMsg/WireProtocol/Replay.antt =====
-- How unpack of authmsg/protocol/wire_protocol.py ends, and frames that come twice.
use animacharacter_dev_src.Prelude.{
  ℕ, ◌≤◌, ◌<◌, ◌≡◌, refl, sym, ap, ◌∙◌, ◌⊎◌, inl, inr, none, some, List, [], ◌∷◌, All, length,
  sequence_error, arith, ok, raised, Exc,
}
use animacharacter_dev_src.Prelude.Bytes.{Bytes, IsBytes}
use animacharacter_dev_src.AuthMsg.Protocol.{Mac, checked_number, encode_packet, decode_packet}
use animacharacter_dev_src.AuthMsg.Protocol.Exact.{decoded_encodes, encoded_decodes}
use animacharacter_dev_src.AuthMsg.Protocol.Outcomes.{
  IsInvalid, bad_framing, bad_signature, bad_sequence, decode_packet-cases,
}
use animacharacter_dev_src.AuthMsg.WireProtocol.{
  SecureWireProtocol, received, unpack_raise, none_if_invalid, unpack, unpack_all,
}

module _ (mac : Mac) where
  -- unpack returns None on each of the three errors.
  pub unpack-invalid :
      (frame : Bytes) (p : SecureWireProtocol) (e : Exc)
      → IsInvalid e
      → decode_packet mac frame p.psk (some p.last_received_sequence) ≡ raised e
      → unpack mac frame p ≡ (p, ok none)
  unfolding unpack unpack_raise received none_if_invalid
  unpack-invalid frame p e bad_framing h = rw h refl
  unpack-invalid frame p e bad_signature h = rw h refl
  unpack-invalid frame p e bad_sequence h = rw h refl

  pub unpack-valid :
      (frame : Bytes) (p : SecureWireProtocol) (s : ℕ) (msg : Bytes)
      → decode_packet mac frame p.psk (some p.last_received_sequence) ≡ ok (s, msg)
      → unpack mac frame p ≡ (record p { last_received_sequence = s }, ok (some msg))
  unfolding unpack unpack_raise received none_if_invalid
  unpack-valid frame p s msg h = rw h refl

  pub unpack-cases :
      (frame : Bytes) (p : SecureWireProtocol)
      → IsBytes frame
      → (unpack mac frame p ≡ (p, ok none))
        ⊎ ((s : ℕ) × (msg : Bytes) × (decode_packet mac frame p.psk (some p.last_received_sequence)
              ≡ ok (s, msg))
            × (unpack mac frame p ≡ (record p { last_received_sequence = s }, ok (some msg))))
  unpack-cases frame p bytes =
      elim (decode_packet-cases mac p.psk (some p.last_received_sequence) frame bytes) [
        | inl (e, invalid, h) ↦ inl (unpack-invalid frame p e invalid h)
        | inr (s, msg, h) ↦ inr (s, msg, h, unpack-valid frame p s msg h)
      ]

  -- A later state of the receiver: the same key, and a number at least as large.
  abbrev pub IsLater : SecureWireProtocol → SecureWireProtocol → Type 0
  IsLater p q = (q.psk ≡ p.psk) × (p.last_received_sequence ≤ q.last_received_sequence)

  unpack-IsLater :
      (frame : Bytes) (p : SecureWireProtocol) → IsBytes frame → IsLater p (unpack mac frame p).0
  unpack-IsLater frame p bytes = elim (unpack-cases frame p bytes) [
    | inl h ↦ rw h (refl, omega arith)
    | inr (s, msg, h, q) ↦
        let fresh =
          (decoded_encodes mac p.psk (some p.last_received_sequence) frame s msg bytes h).1 in
        rw q (refl, ground (arith, fresh))
  ]

  unpack_all-IsLater :
      (frames : List Bytes) (p : SecureWireProtocol)
      → All IsBytes frames
      → IsLater p (unpack_all mac frames p).0
  unfolding unpack_all
  unpack_all-IsLater [] p bytes = (refl, omega arith)
  unpack_all-IsLater (frame ∷ frames) p bytes =
      let first = unpack-IsLater frame p bytes.0 in
      let rest = unpack_all-IsLater frames (unpack mac frame p).0 bytes.1 in
      (rest.0 ∙ first.0, omega (arith, first.1, rest.1))

  pub unpack_old :
      (r : SecureWireProtocol) (frame msg : Bytes) (s : ℕ)
      → ((text : Bytes) → length (mac r.psk text) ≡ 32)
      → encode_packet mac s msg r.psk ≡ ok frame
      → s ≤ r.last_received_sequence
      → unpack mac frame r ≡ (r, ok none)
  unfolding checked_number
  unpack_old r frame msg s mac_size h old = unpack-invalid frame r sequence_error bad_sequence (
      encoded_decodes mac r.psk (some r.last_received_sequence) frame s msg mac_size h
      ∙ ground (arith, old))

  pub unpack_new :
      (r : SecureWireProtocol) (frame msg : Bytes) (s : ℕ)
      → ((text : Bytes) → length (mac r.psk text) ≡ 32)
      → encode_packet mac s msg r.psk ≡ ok frame
      → r.last_received_sequence < s
      → unpack mac frame r ≡ (record r { last_received_sequence = s }, ok (some msg))
  unfolding checked_number
  unpack_new r frame msg s mac_size h new = unpack-valid frame r s msg (
      encoded_decodes mac r.psk (some r.last_received_sequence) frame s msg mac_size h
      ∙ ground (arith, new))

  -- A frame of bytes that unpack accepted is refused later on, with the receiver unchanged,
  -- whatever frames of bytes came in between. The HMAC is assumed to have 32 bytes.
  pub replay_refused :
      (p q : SecureWireProtocol) (frame msg : Bytes) (frames : List Bytes)
      → ((key text : Bytes) → length (mac key text) ≡ 32)
      → IsBytes frame
      → All IsBytes frames
      → unpack mac frame p ≡ (q, ok (some msg))
      → unpack mac frame (unpack_all mac frames q).0 ≡ ((unpack_all mac frames q).0, ok none)
  replay_refused p q frame msg frames mac_size bytes all_bytes h =
      elim (unpack-cases frame p bytes) [
        | inl e ↦ absurd (ground (arith, e, h))
        | inr (s, text, e, accepted) ↦
            let r = (unpack_all mac frames q).0 in
            let encoded =
              (decoded_encodes mac p.psk (some p.last_received_sequence) frame s text bytes e).0 in
            let state : record p { last_received_sequence = s } ≡ q =
              ap (λ pair. pair.0) (sym accepted ∙ h) in
            let later = unpack_all-IsLater frames q all_bytes in
            unpack_old r frame text s (mac_size r.psk)
              (rw (later.0 ∙ ap (λ x. x.psk) (sym state)) encoded)
              (rw (ap (λ x. x.last_received_sequence) state) later.1)
      ]
