-- ===== src/AuthMsg/WireProtocol/Channel.antt =====
-- What comes through between two SecureWireProtocol objects of one key.
use animacharacter_dev_src.Prelude.{
  ℕ, ◌+◌, ◌≡◌, ◌≢◌, refl, sym, ap, inl, inr, Option, none, some, List, [], ◌∷◌, length, arith, ok,
  ltb, if◌then◌else◌, Bool-cases, map,
}
use animacharacter_dev_src.Prelude.Bytes.{Bytes, IsBytes}
use animacharacter_dev_src.AuthMsg.Protocol.{Mac, encode_packet}
use animacharacter_dev_src.AuthMsg.Protocol.Exact.{decoded_encodes}
use animacharacter_dev_src.AuthMsg.WireProtocol.{SecureWireProtocol, pack, unpack, unpack_all}
use animacharacter_dev_src.AuthMsg.WireProtocol.Replay.{unpack-cases, unpack_old, unpack_new}

-- A frame on the way: the one for the n-th message sent, counted from 0, or one of an attacker's.
pub data Traffic : Type 0 where
  sent : ℕ → Bytes → Traffic
  forged : Traffic

-- The frame is what pack returns after n messages, or one that encode_packet makes of nothing.
abbrev pub IsFrameOf : Mac → SecureWireProtocol → Traffic → Bytes → Type 0
IsFrameOf mac sender (sent n msg) frame =
    (pack mac msg (record sender { send_sequence = n })).1 ≡ ok frame
IsFrameOf mac sender forged frame =
    IsBytes frame × ((seq : ℕ) (msg : Bytes) → encode_packet mac seq msg sender.psk ≢ ok frame)

abbrev pub AreFramesOf : Mac → SecureWireProtocol → List Traffic → List Bytes → Type 0
AreFramesOf mac sender [] [] = Unit
AreFramesOf mac sender (t ∷ traffic) (frame ∷ frames) =
    IsFrameOf mac sender t frame × AreFramesOf mac sender traffic frames
AreFramesOf mac sender [] (frame ∷ frames) = ⊥
AreFramesOf mac sender (t ∷ traffic) [] = ⊥

-- A message counts if it was sent later than all before it that counted. `high` is the number of
-- messages sent up to the last one that did.
abbrev pub counted : ℕ → Traffic → Option Bytes
counted high forged = none
counted high (sent n msg) = if ltb n high then none else some msg

abbrev pub next_high : ℕ → Traffic → ℕ
next_high high forged = high
next_high high (sent n msg) = if ltb n high then high else n + 1

abbrev pub record_highs : ℕ → List Traffic → List (Option Bytes)
record_highs high [] = []
record_highs high (t ∷ traffic) = counted high t ∷ record_highs (next_high high t) traffic

module _ (mac : Mac) (sender : SecureWireProtocol) where
  unpack-forged :
      (r : SecureWireProtocol) (frame : Bytes)
      → r.psk ≡ sender.psk
      → IsFrameOf mac sender forged frame
      → unpack mac frame r ≡ (r, ok none)
  unpack-forged r frame key h = elim (unpack-cases mac frame r h.0) [
    | inl q ↦ q
    | inr (s, msg, decoded, q) ↦
        let made =
          (decoded_encodes mac r.psk (some r.last_received_sequence) frame s msg h.0 decoded).0 in
        absurd (h.1 s msg (rw (sym key) made))
  ]

  pub unpack-counted :
      (r : SecureWireProtocol) (t : Traffic) (frame : Bytes)
      → ((key text : Bytes) → length (mac key text) ≡ 32)
      → r.psk ≡ sender.psk
      → IsFrameOf mac sender t frame
      → unpack mac frame r ≡ (
        record r { last_received_sequence = next_high r.last_received_sequence t },
        ok (counted r.last_received_sequence t),
      )
  unfolding pack
  unpack-counted r forged frame mac_size key h = unpack-forged r frame key h
  unpack-counted r (sent n msg) frame mac_size key h =
      let made : encode_packet mac (n + 1) msg r.psk ≡ ok frame = rw key h in
      elim (Bool-cases (ltb n r.last_received_sequence)) [
        | inl old ↦
            rw old (unpack_old mac r frame msg (n + 1) (mac_size r.psk) made (ground (arith, old)))
        | inr new ↦
            rw new (unpack_new mac r frame msg (n + 1) (mac_size r.psk) made (ground (arith, new)))
      ]

  -- A receiver with the sender's key that is given any sequence of the sender's frames, repeated,
  -- reordered or left out, and of frames that encode_packet makes of no number and message,
  -- returns the messages that were sent later than all before them and None for every other
  -- frame, and never raises. The HMAC is assumed to have 32 bytes.
  pub unpack_all-record_highs :
      (r : SecureWireProtocol) (traffic : List Traffic) (frames : List Bytes)
      → ((key text : Bytes) → length (mac key text) ≡ 32)
      → r.psk ≡ sender.psk
      → AreFramesOf mac sender traffic frames
      → (unpack_all mac frames r).1 ≡ map ok (record_highs r.last_received_sequence traffic)
  unfolding unpack_all
  unpack_all-record_highs r [] [] mac_size key h = refl
  unpack_all-record_highs r (t ∷ traffic) (frame ∷ frames) mac_size key h =
      rw (unpack-counted r t frame mac_size key h.0) (
        ap (◌∷◌ (ok (counted r.last_received_sequence t))) (
          unpack_all-record_highs
            (record r { last_received_sequence = next_high r.last_received_sequence t }) traffic
            frames mac_size key h.1))
  unpack_all-record_highs r [] (frame ∷ frames) mac_size key h = elim h [ ]
  unpack_all-record_highs r (t ∷ traffic) [] mac_size key h = elim h [ ]
