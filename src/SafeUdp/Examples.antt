-- ===== src/SafeUdp/Examples.antt =====
-- Two sockets with a made-up digest and frame format, and the theorems about them there.
use animacharacter_dev_src.Prelude.{
  ℕ, ◌+◌, pos, ◌≡◌, ◌≢◌, refl, Option, none, some, [], ◌∷◌, ◌++◌, length, take, drop, ok, arith,
  String-discrete,
}
use animacharacter_dev_src.Prelude.Dict.{get, put}
use animacharacter_dev_src.Prelude.Bytes.{
  Bytes, to_bytes, big_endian, from_bytes, from_bytes_after, same_bytes,
}
use animacharacter_dev_src.SafeUdp.{
  SocketAddress, SocketAddress-discrete, address_key, invalid_address, Field, int_field,
  bytes_field, Libraries, SafeUdpSock, new_sock, resolve_peer, populate, tracker_of, gen_hmac,
  accept_signed, accept_numbered, accept_from, accept_fields, decode_frame,
}
use animacharacter_dev_src.SafeUdp.Receive.{datagram_from, socket_timeout, own_peer, everyone, recv}
use animacharacter_dev_src.SafeUdp.Replays.{
  sends, receives, overrides, sock_steps, accepted_once, no_peer_hears_nothing,
}

abbrev toy_packb : ℕ → Bytes → Bytes → Bytes
toy_packb seq sig payload = seq ∷ length sig ∷ sig ++ payload

abbrev toy_unpackb : Bytes → Option (Field × Field × Field)
toy_unpackb [] = none
toy_unpackb (seq ∷ []) = none
toy_unpackb (seq ∷ size ∷ rest) =
    some (int_field (pos seq), bytes_field (take size rest), bytes_field (drop size rest))

abbrev toy_libraries : Libraries
toy_libraries = record {
  digest = λ key text. big_endian 32 (from_bytes key + from_bytes text);
  packb = toy_packb;
  unpackb = toy_unpackb;
  gethostbyname = ok;
}

abbrev her_address : SocketAddress
her_address = ("10.0.0.3", 5000)

abbrev socket : SafeUdpSock
socket = new_sock (9 ∷ [])

abbrev frame_one : Bytes
frame_one = 1 ∷ 8 ∷ 0 ∷ 0 ∷ 0 ∷ 0 ∷ 0 ∷ 0 ∷ 0 ∷ 0 ∷ 5 ∷ []

abbrev after_one : SafeUdpSock
after_one = record socket { seq_num_map = (her_address, record { outbound = 0; inbound = 1 }) ∷ [] }

frame_one_accepted :
    decode_frame toy_libraries frame_one her_address socket ≡ (after_one, ok (some (5 ∷ [])))
unfolding decode_frame accept_fields accept_from accept_numbered accept_signed resolve_peer populate
    tracker_of gen_hmac to_bytes big_endian from_bytes from_bytes_after same_bytes get put
    SocketAddress-discrete String-discrete
frame_one_accepted = refl

accepted_once_example :
    (decode_frame toy_libraries frame_one her_address (
      sock_steps toy_libraries
        (sends (7 ∷ []) (some her_address)
          ∷ receives everyone (datagram_from her_address frame_one ∷ [])
          ∷ overrides her_address 0
          ∷ [])
        after_one)).1
    ≡ ok none
accepted_once_example =
    accepted_once toy_libraries frame_one (5 ∷ []) her_address socket after_one
      (sends (7 ∷ []) (some her_address)
        ∷ receives everyone (datagram_from her_address frame_one ∷ [])
        ∷ overrides her_address 0
        ∷ [])
      frame_one_accepted

her_address-ne-invalid : her_address ≢ invalid_address
her_address-ne-invalid h = ground (arith, h)

no_peer_hears_nothing_example :
    recv toy_libraries own_peer (datagram_from her_address frame_one ∷ socket_timeout ∷ []) socket
    ≡ (socket, ok none)
no_peer_hears_nothing_example =
    no_peer_hears_nothing toy_libraries (datagram_from her_address frame_one ∷ socket_timeout ∷ [])
      socket refl (her_address-ne-invalid, (tt, tt))
