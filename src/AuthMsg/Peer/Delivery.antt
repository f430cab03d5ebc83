-- ===== src/AuthMsg/Peer/Delivery.antt =====
-- What the program that calls recv of authmsg/core/peer.py gets.
use animacharacter_dev_src.Prelude.{
  ℕ, ◌≡◌, refl, ap, ◌∙◌, true, Option, none, some, List, [], ◌∷◌, length, ok, map,
}
use animacharacter_dev_src.Prelude.Bytes.{Bytes}
use animacharacter_dev_src.AuthMsg.Protocol.{Mac}
use animacharacter_dev_src.AuthMsg.WireProtocol.{SecureWireProtocol, unpack}
use animacharacter_dev_src.AuthMsg.WireProtocol.Channel.{
  Traffic, IsFrameOf, counted, next_high, unpack-counted,
}
use animacharacter_dev_src.AuthMsg.Peer.{
  Transport, Peer, require_initialized, finish_unpacked, finish_recv, recv, recv_all,
}

-- What a transport owes to the peer while it is ready: receiving changes nothing and yields the
-- packet that arrived, if one did, and dropping the connection leaves the transport ready.
pub record RecvLaws {T S R : Type 0} (m : Transport T S R) : Type 1 where
  pub IsReady : T → Type 0
  pub arrived : R → Option Bytes
  pub initialized : (t : T) → IsReady t → m.is_initialized t ≡ true
  pub recv_arrived :
      (answer : R) (t : T) → IsReady t → m.transport_recv answer t ≡ (t, ok (arrived answer))
  pub drop_ready : (t : T) → IsReady t → IsReady (m.drop_connection t)

-- An attempt to receive gets nothing, or a frame.
abbrev pub Attempts :
    {R : Type 0}
    → (R → Option Bytes)
    → Mac
    → SecureWireProtocol
    → List (Option Traffic)
    → List R
    → Type 0
Attempts arrived mac sender [] [] = Unit
Attempts arrived mac sender (none ∷ traffic) (answer ∷ answers) =
    (arrived answer ≡ none) × Attempts arrived mac sender traffic answers
Attempts arrived mac sender (some t ∷ traffic) (answer ∷ answers) =
    ((frame : Bytes) × (arrived answer ≡ some frame) × IsFrameOf mac sender t frame)
    × Attempts arrived mac sender traffic answers
Attempts arrived mac sender [] (answer ∷ answers) = ⊥
Attempts arrived mac sender (t ∷ traffic) [] = ⊥

-- b"" where nothing counts
abbrev pub or_empty : Option Bytes → Bytes
or_empty none = []
or_empty (some msg) = msg

abbrev pub delivered : ℕ → List (Option Traffic) → List Bytes
delivered high [] = []
delivered high (none ∷ traffic) = [] ∷ delivered high traffic
delivered high (some t ∷ traffic) = or_empty (counted high t) ∷ delivered (next_high high t) traffic

module _ {T S R : Type 0} (m : Transport T S R) (laws : RecvLaws m) (mac : Mac) where
  require_initialized-ready :
      (peer : Peer T) → laws.IsReady peer.transport → require_initialized mac m peer ≡ ok tt
  unfolding require_initialized
  require_initialized-ready peer ready = rw (laws.initialized peer.transport ready) refl

  recv-ready :
      (answer : R) (peer : Peer T)
      → laws.IsReady peer.transport
      → recv mac m answer peer
        ≡ finish_recv mac m peer.proto (peer.transport, ok (laws.arrived answer))
  unfolding recv
  recv-ready answer peer ready =
      rw (require_initialized-ready peer ready, recv)
        (ap (finish_recv mac m peer.proto) (laws.recv_arrived answer peer.transport ready))

  recv-nothing :
      (answer : R) (peer : Peer T)
      → laws.IsReady peer.transport
      → laws.arrived answer ≡ none
      → recv mac m answer peer ≡ (peer, ok [])
  unfolding finish_recv
  recv-nothing answer peer ready h = recv-ready answer peer ready ∙ rw h refl

  finish_unpacked_lem :
      (t : T) (proto : SecureWireProtocol) (msg : Option Bytes)
      → laws.IsReady t
      → (u : T) × laws.IsReady u
        × (finish_unpacked mac m t (proto, ok msg)
            ≡ (record { proto = proto; transport = u }, ok (or_empty msg)))
  unfolding finish_unpacked
  finish_unpacked_lem t proto none ready = (m.drop_connection t, laws.drop_ready t ready, refl)
  finish_unpacked_lem t proto (some msg) ready = (t, ready, refl)

  recv-frame :
      (answer : R) (peer : Peer T) (frame : Bytes)
      → laws.IsReady peer.transport
      → laws.arrived answer ≡ some frame
      → recv mac m answer peer ≡ finish_unpacked mac m peer.transport (unpack mac frame peer.proto)
  unfolding finish_recv
  recv-frame answer peer frame ready h = recv-ready answer peer ready ∙ rw h refl

  -- A peer over a ready transport whose program calls recv again and again gets, if the transport
  -- keeps its laws and the peer has the sender's key, at each call the message that arrived if it
  -- was sent later than all that came through before, and b"" if nothing arrived or what arrived is old, repeated
  -- or not made by encode_packet. No call raises. The HMAC is assumed to have 32 bytes.
  pub recv_all-delivered :
      (sender : SecureWireProtocol) (peer : Peer T) (traffic : List (Option Traffic))
      (answers : List R)
      → ((key text : Bytes) → length (mac key text) ≡ 32)
      → laws.IsReady peer.transport
      → peer.proto.psk ≡ sender.psk
      → Attempts laws.arrived mac sender traffic answers
      → (recv_all mac m answers peer).1
        ≡ map ok (delivered peer.proto.last_received_sequence traffic)
  unfolding recv_all
  recv_all-delivered sender peer [] [] mac_size ready key h = refl
  recv_all-delivered sender peer (none ∷ traffic) (answer ∷ answers) mac_size ready key h =
      rw (recv-nothing answer peer ready h.0)
        (ap (◌∷◌ (ok [])) (recv_all-delivered sender peer traffic answers mac_size ready key h.1))
  recv_all-delivered sender peer (some t ∷ traffic) (answer ∷ answers) mac_size ready key h =
      let (frame, came, is_frame) = h.0 in
      let high = peer.proto.last_received_sequence in
      let proto : SecureWireProtocol = record peer.proto {
        last_received_sequence = next_high high t;
      } in
      let (u, still_ready, finished) =
        finish_unpacked_lem peer.transport proto (counted high t) ready in
      rw
        (
          recv-frame answer peer frame ready came,
          unpack-counted mac sender peer.proto t frame mac_size key is_frame,
          finished,
        )
        (ap (◌∷◌ (ok (or_empty (counted high t)))) (
          recv_all-delivered sender (record { proto = proto; transport = u }) traffic answers
            mac_size still_ready key h.1))
  recv_all-delivered sender peer [] (answer ∷ answers) mac_size ready key h = elim h [ ]
  recv_all-delivered sender peer (none ∷ traffic) [] mac_size ready key h = elim h [ ]
  recv_all-delivered sender peer (some t ∷ traffic) [] mac_size ready key h = elim h [ ]
