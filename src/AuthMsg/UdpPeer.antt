-- ===== src/AuthMsg/UdpPeer.antt =====
-- authmsg/core/udp_peer.py: PeerUDP, a peer over a datagram socket.
use animacharacter_dev_src.Prelude.{
  Bool, true, false, Result, ok, raised, ◌>>=◌, Exc, Float, is_already_initialized, if◌then◌else◌,
}
use animacharacter_dev_src.Prelude.Bytes.{Bytes}
use animacharacter_dev_src.AuthMsg.WireProtocol.{new_protocol}
use animacharacter_dev_src.AuthMsg.UdpEndpoint.{
  Address, UdpEndpoint, Answer, new_endpoint, set_endpoint_timeout, close_endpoint, connect,
  endpoint_send, endpoint_recv,
}
use animacharacter_dev_src.AuthMsg.Peer.{Transport, Peer}

pub record UdpState (F : Type 0) : Type 0 where
  pub udp : UdpEndpoint F
  pub is_dialed : Bool

module _ {F : Type 0} where
  -- the methods that PeerUDP implements
  abbrev pub udp_transport : Transport (UdpState F) (Answer Unit) (Answer Bytes)
  udp_transport = record {
    is_initialized = λ t. t.is_dialed;
    close_transport = λ t. record { udp = close_endpoint t.udp; is_dialed = false };
    drop_connection = λ t. t;
    transport_send = λ answer packet t.
        let (udp, sent) = endpoint_send answer packet t.udp in (record t { udp = udp }, sent);
    transport_recv = λ answer t. (t, endpoint_recv answer t.udp);
  }

  -- PeerUDP(bind_port, psk, timeout): 5.0 is the time the endpoint starts with
  unfoldable pub new_udp_peer : ⦃f : Float F⦄ → F → Bytes → F → Result Exc (Peer (UdpState F))
  new_udp_peer default_timeout psk timeout = do
    udp ← set_endpoint_timeout timeout (new_endpoint default_timeout)
    ok (record { proto = new_protocol psk; transport = record { udp = udp; is_dialed = false } })

  unfoldable pub set_timeout :
      ⦃f : Float F⦄ → F → Peer (UdpState F) → Result Exc (Peer (UdpState F))
  set_timeout timeout peer = do
    udp ← set_endpoint_timeout timeout peer.transport.udp
    ok (record peer { transport = record peer.transport { udp = udp } })

  -- dial from the socket's connect on
  unfoldable pub dialed :
      Peer (UdpState F) → UdpEndpoint F × Result Exc Unit → Peer (UdpState F) × Result Exc Unit
  dialed peer (udp, raised e) =
      (record peer { transport = record peer.transport { udp = udp } }, raised e)
  dialed peer (udp, ok _) =
      (record peer { transport = record { udp = udp; is_dialed = true } }, ok tt)

  unfoldable pub dial : Bool → Address → Peer (UdpState F) → Peer (UdpState F) × Result Exc Unit
  dial connects address peer =
      if peer.transport.is_dialed
      then (peer, raised is_already_initialized)
      else dialed peer (connect connects address peer.transport.udp)
