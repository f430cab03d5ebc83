-- ===== src/AuthMsg/Examples.antt =====
-- Concrete packets, peers and attempts to receive, and the theorems about them there.
use animacharacter_dev_src.Prelude.{
  ℕ, zero, suc, ◌+◌, ◌^◌, ◌≤◌, ◌<◌, ◌≡◌, ◌≢◌, refl, sym, ap, ◌∙◌, ◌↔◌, ◌⊎◌, inl, inr, true, false,
  none, some, [], ◌∷◌, length, arith, ok, raised, ok-inj, overflow_error, map,
}
use animacharacter_dev_src.Prelude.Bytes.{
  Bytes, IsBytes, to_bytes, from_bytes, from_bytes_after, big_endian, same_bytes, length-big_endian,
}
use animacharacter_dev_src.AuthMsg.Protocol.{
  Mac, is_replay, checked_number, make_signature, validate_signature, encode_packet, decode_parts,
  decode_packet, ensure_valid_packet_size, max_udp_payload,
}
use animacharacter_dev_src.AuthMsg.Protocol.Exact.{decode_exact}
use animacharacter_dev_src.AuthMsg.Protocol.Size.{encode_packet_bounds}
use animacharacter_dev_src.AuthMsg.WireProtocol.{
  new_protocol, pack, received, unpack_raise, none_if_invalid, unpack, unpack_all,
}
use animacharacter_dev_src.AuthMsg.UdpEndpoint.{timed_out, got, connect}
use animacharacter_dev_src.AuthMsg.UdpPeer.{UdpState, udp_transport, dialed, dial}
use animacharacter_dev_src.AuthMsg.Peer.{Peer, recv_all}
use animacharacter_dev_src.AuthMsg.Peer.Delivery.{delivered, recv_all-delivered}
use animacharacter_dev_src.AuthMsg.Peer.Transports.{udp_recv_laws}
use animacharacter_dev_src.AuthMsg.WireProtocol.Replay.{replay_refused}
use animacharacter_dev_src.AuthMsg.WireProtocol.Channel.{sent, forged}

-- A checksum in place of the HMAC: the sum of the key's and the data's numbers, in 32 bytes.
abbrev sum_mac : Mac
sum_mac key text = big_endian 32 (from_bytes key + from_bytes text)

sum_mac_size : (key text : Bytes) → length (sum_mac key text) ≡ 32
sum_mac_size key text = length-big_endian 32 (from_bytes key + from_bytes text)

abbrev key_seven : Bytes
key_seven = 7 ∷ []

abbrev zeros : ℕ → Bytes → Bytes
zeros zero bs = bs
zeros (suc n) bs = 0 ∷ zeros n bs

zeros-IsBytes : (n : ℕ) (bs : Bytes) → IsBytes bs → IsBytes (zeros n bs)
zeros-IsBytes zero bs h = h
zeros-IsBytes (suc n) bs h = (omega arith, zeros-IsBytes n bs h)

abbrev five : Bytes
five = 5 ∷ []

-- the packet number 1 with the payload 5
abbrev packet_one : Bytes
packet_one = zeros 7 (1 ∷ 5 ∷ zeros 30 (1 ∷ 12 ∷ []))

packet_one_made : encode_packet sum_mac 1 five key_seven ≡ ok packet_one
unfolding encode_packet make_signature to_bytes big_endian from_bytes from_bytes_after
packet_one_made = refl

packet_one-IsBytes : IsBytes packet_one
packet_one-IsBytes =
    zeros-IsBytes 7 (1 ∷ 5 ∷ zeros 30 (1 ∷ 12 ∷ []))
      (omega arith, (omega arith, zeros-IsBytes 30 (1 ∷ 12 ∷ []) (omega arith, (omega arith, tt))))

decode_exact_example :
    (decode_packet sum_mac packet_one key_seven (some 0) ≡ ok (1, 5 ∷ []))
    ↔ ((encode_packet sum_mac 1 five key_seven ≡ ok packet_one) × (is_replay (some 0) 1 ≡ false))
decode_exact_example =
    decode_exact sum_mac key_seven (some 0) packet_one 1 five (sum_mac_size key_seven)
      packet_one-IsBytes

encode_packet_bounds_example :
    ((2 ^ 64 ≤ 1) × (encode_packet sum_mac 1 five key_seven ≡ raised overflow_error))
    ⊎ ((1 < 2 ^ 64)
        × ((packet : Bytes) × (encode_packet sum_mac 1 five key_seven ≡ ok packet)
            × (length packet ≡ 40 + length five)
            × ((ensure_valid_packet_size five ≡ ok tt) ↔ (length packet ≤ max_udp_payload))))
encode_packet_bounds_example =
    encode_packet_bounds sum_mac key_seven 1 five (sum_mac_size key_seven)

unpack_one :
    unpack sum_mac packet_one (new_protocol key_seven)
    ≡ (record (new_protocol key_seven) { last_received_sequence = 1 }, ok (some five))
unfolding unpack unpack_raise received none_if_invalid decode_packet decode_parts checked_number
    validate_signature make_signature to_bytes big_endian from_bytes from_bytes_after same_bytes
unpack_one = refl

replay_refused_example :
    unpack sum_mac packet_one
      (unpack_all sum_mac
        (five ∷ packet_one ∷ [])
        (record (new_protocol key_seven) { last_received_sequence = 1 })).0
    ≡ (
      (unpack_all sum_mac
          (five ∷ packet_one ∷ [])
          (record (new_protocol key_seven) { last_received_sequence = 1 })).0,
      ok none,
    )
replay_refused_example =
    replay_refused sum_mac (new_protocol key_seven)
      (record (new_protocol key_seven) { last_received_sequence = 1 }) packet_one five
      (five ∷ packet_one ∷ []) sum_mac_size packet_one-IsBytes
      ((omega arith, tt), (packet_one-IsBytes, tt)) unpack_one

abbrev own_peer : Peer (UdpState ℕ)
own_peer = record {
  proto = new_protocol key_seven;
  transport = record {
    udp = record { timeout = 5; peer_addr = some ("10.0.0.2", 4000); sent = []; is_closed = false };
    is_dialed = true;
  };
}

dial-own_peer :
    dial true
      ("10.0.0.2", 4000)
      (record own_peer {
        transport = record {
          udp = record { timeout = 5; peer_addr = none; sent = []; is_closed = false };
          is_dialed = false;
        };
      })
    ≡ (own_peer, ok tt)
unfolding dial dialed connect
dial-own_peer = refl

-- a frame too short for encode_packet to have made it
five_forged : (seq : ℕ) (msg : Bytes) → encode_packet sum_mac seq msg key_seven ≢ ok five
five_forged seq msg =
    elim (encode_packet_bounds sum_mac key_seven seq msg (sum_mac_size key_seven)) [
      | inl (_, q) ↦ λ h. ground (arith, h, q)
      | inr (_, (packet, q, size, _)) ↦
          λ h. ground (arith, h, q, size, ap length (ok-inj (sym q ∙ h)))
    ]

-- Nothing comes in time, then the second message, a forged frame, and the second once more.
recv_all-delivered_example :
    (recv_all sum_mac udp_transport
      (timed_out ∷ got packet_one ∷ got five ∷ got packet_one ∷ [])
      own_peer).1
    ≡ map ok (delivered 0 (none ∷ some (sent 0 five) ∷ some forged ∷ some (sent 0 five) ∷ []))
unfolding pack udp_recv_laws
recv_all-delivered_example =
    recv_all-delivered udp_transport udp_recv_laws sum_mac (new_protocol key_seven) own_peer
      (none ∷ some (sent 0 five) ∷ some forged ∷ some (sent 0 five) ∷ [])
      (timed_out ∷ got packet_one ∷ got five ∷ got packet_one ∷ []) sum_mac_size
      (refl, (("10.0.0.2", 4000), refl)) refl
      (
        refl,
        (
          (packet_one, refl, packet_one_made),
          (
            (five, refl, ((omega arith, tt), five_forged)),
            ((packet_one, refl, packet_one_made), tt),
          ),
        ),
      )
