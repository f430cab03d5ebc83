-- ===== src/AuthMsg/Peer.antt =====
-- authmsg/core/peer.py: PeerBase, over the transport that a derived class implements.
pub mod Delivery
pub mod Transports
use animacharacter_dev_src.Prelude.{
  ℕ, Bool, true, false, Option, none, some, List, [], ◌∷◌, Result, ok, raised, ◌>>=◌, Exc,
  is_not_initialized, is_already_initialized, if◌then◌else◌,
}
use animacharacter_dev_src.Prelude.Bytes.{Bytes}
use animacharacter_dev_src.AuthMsg.Protocol.{Mac}
use animacharacter_dev_src.AuthMsg.WireProtocol.{SecureWireProtocol, set_psk, pack, unpack}

-- The methods a derived class has to implement, on its own state T. The environment answers a
-- send with an S and a receive with an R.
pub record Transport (T S R : Type 0) : Type 0 where
  pub is_initialized : T → Bool
  pub close_transport : T → T
  pub drop_connection : T → T
  pub transport_send : S → Bytes → T → T × Result Exc Bool
  pub transport_recv : R → T → T × Result Exc (Option Bytes)

pub record Peer (T : Type 0) : Type 0 where
  pub proto : SecureWireProtocol
  pub transport : T

module _ {T S R : Type 0} (mac : Mac) (m : Transport T S R) where
  unfoldable pub require_initialized : Peer T → Result Exc Unit
  require_initialized peer =
      if m.is_initialized peer.transport then ok tt else raised is_not_initialized

  unfoldable pub require_not_initialized : Peer T → Result Exc Unit
  require_not_initialized peer =
      if m.is_initialized peer.transport then raised is_already_initialized else ok tt

  unfoldable pub close : Peer T → Result Exc (Peer T)
  close peer = do
    _ ← require_initialized peer
    ok (record peer { transport = m.close_transport peer.transport })

  -- the packet handed to the transport, unless packing it raised
  unfoldable pub send_packed :
      S → Peer T → SecureWireProtocol × Result Exc Bytes → Peer T × Result Exc Bool
  send_packed answer peer (proto, raised e) = (record peer { proto = proto }, raised e)
  send_packed answer peer (proto, ok packet) =
      let (transport, sent) = m.transport_send answer packet peer.transport in
      (record { proto = proto; transport = transport }, sent)

  -- `send` and `asend`
  unfoldable pub send : S → Bytes → Peer T → Peer T × Result Exc Bool
  send answer msg peer = elim (require_initialized peer) [
    | raised e ↦ (peer, raised e)
    | ok _ ↦ send_packed answer peer (pack mac msg peer.proto)
  ]

  -- _finish_recv from the unpacked message on
  unfoldable pub finish_unpacked :
      T → SecureWireProtocol × Result Exc (Option Bytes) → Peer T × Result Exc Bytes
  finish_unpacked transport (proto, raised e) =
      (record { proto = proto; transport = transport }, raised e)
  finish_unpacked transport (proto, ok none) =
      (record { proto = proto; transport = m.drop_connection transport }, ok [])
  finish_unpacked transport (proto, ok (some msg)) =
      (record { proto = proto; transport = transport }, ok msg)

  unfoldable pub finish_recv :
      SecureWireProtocol → T × Result Exc (Option Bytes) → Peer T × Result Exc Bytes
  finish_recv proto (transport, raised e) =
      (record { proto = proto; transport = transport }, raised e)
  finish_recv proto (transport, ok none) = (record { proto = proto; transport = transport }, ok [])
  finish_recv proto (transport, ok (some packet)) =
      finish_unpacked transport (unpack mac packet proto)

  -- `recv` and `arecv`
  unfoldable pub recv : R → Peer T → Peer T × Result Exc Bytes
  recv answer peer = elim (require_initialized peer) [
    | raised e ↦ (peer, raised e)
    | ok _ ↦ finish_recv peer.proto (m.transport_recv answer peer.transport)
  ]

  -- A program that calls recv again and again.
  unfoldable pub recv_all : List R → Peer T → Peer T × List (Result Exc Bytes)
  recv_all [] peer = (peer, [])
  recv_all (answer ∷ answers) peer =
      let (next, msg) = recv answer peer in
      let (last, msgs) = recv_all answers next in (last, msg ∷ msgs)

-- the method set_psk of a peer
abbrev pub set_peer_psk : {T : Type 0} → Bytes → Peer T → Peer T
set_peer_psk psk peer = record peer { proto = set_psk psk peer.proto }
