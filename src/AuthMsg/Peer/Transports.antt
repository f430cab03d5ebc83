-- ===== src/AuthMsg/Peer/Transports.antt =====
-- The transports of authmsg/core/udp_peer.py and authmsg/core/tcp_peer.py keep the laws.
use animacharacter_dev_src.Prelude.{◌≡◌, refl, ap, true, some}
use animacharacter_dev_src.AuthMsg.UdpEndpoint.{Address, datagram, require_peer, endpoint_recv}
use animacharacter_dev_src.AuthMsg.UdpPeer.{UdpState, udp_transport}
use animacharacter_dev_src.AuthMsg.TcpPeer.{tcp_transport}
use animacharacter_dev_src.AuthMsg.Peer.Delivery.{RecvLaws}

module _ {F : Type 0} where
  -- The peer was dialed, and its endpoint has an address.
  abbrev pub IsDialed : UdpState F → Type 0
  IsDialed t = (t.is_dialed ≡ true) × ((address : Address) × (t.udp.peer_addr ≡ some address))

  unfoldable pub udp_recv_laws : RecvLaws {T = UdpState F} udp_transport
  unfolding endpoint_recv require_peer
  udp_recv_laws = record {
    IsReady = IsDialed;
    arrived = datagram;
    initialized = λ t ready. ready.0;
    recv_arrived = λ answer t ready. ap (λ r. (t, r)) (rw (ready.1.1) refl);
    drop_ready = λ t ready. ready;
  }

unfoldable pub tcp_recv_laws : RecvLaws tcp_transport
tcp_recv_laws = record {
  IsReady = λ t. t.is_init ≡ true;
  arrived = λ answer. answer;
  initialized = λ t ready. ready;
  recv_arrived = λ answer t ready. refl;
  drop_ready = λ t ready. ready;
}
