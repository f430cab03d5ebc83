-- ===== src/AuthMsg/TcpPeer.antt =====
-- authmsg/core/tcp_peer.py: PeerTCP, a peer over a pair socket of pynng. The package's answers are
-- arguments: whether a packet could be sent in time, and the packet received, if one came in time.
-- Its other errors are not modelled. `to_ms` stands for int(timeout * 1000).
use animacharacter_dev_src.Prelude.{
  ℤ, pos, ltb_ℤ, Bool, true, false, Option, none, some, List, [], ◌∷◌, ◌++◌, Result, ok, raised,
  ◌>>=◌, Exc, value_error, is_already_initialized, is_not_initialized, if◌then◌else◌,
}
use animacharacter_dev_src.Prelude.Bytes.{Bytes}
use animacharacter_dev_src.AuthMsg.WireProtocol.{new_protocol}
use animacharacter_dev_src.AuthMsg.UdpEndpoint.{Address}
use animacharacter_dev_src.AuthMsg.Peer.{Transport, Peer}

-- the socket with its open pipes, each known by its remote address, and what PeerTCP keeps itself
pub record TcpState : Type 0 where
  pub pipes : List Address
  pub sent : List Bytes
  pub recv_timeout : ℤ
  pub send_timeout : ℤ
  pub is_closed : Bool
  pub is_init : Bool
  pub block_on_recv : Bool
  pub block_on_send : Bool

-- _transport_send, _transport_asend
unfoldable pub tcp_send : Bool → Bytes → TcpState → TcpState × Result Exc Bool
tcp_send in_time packet t =
    if in_time then (record t { sent = t.sent ++ packet ∷ [] }, ok true) else (t, ok false)

-- the methods that PeerTCP implements
abbrev pub tcp_transport : Transport TcpState Bool (Option Bytes)
tcp_transport = record {
  is_initialized = λ t. t.is_init;
  close_transport = λ t. record t { pipes = []; is_closed = true };
  drop_connection = λ t. record t { pipes = [] };
  transport_send = tcp_send;
  transport_recv = λ answer t. (t, ok answer);
}

-- the remote address, which is that of the first pipe
unfoldable pub remote_address : Peer TcpState → Result Exc Address
remote_address peer = elim peer.transport.pipes [
  | [] ↦ raised is_not_initialized
  | address ∷ _ ↦ ok address
]

-- `dial` and `listen`, which differ in the call of the socket only
unfoldable pub open_connection : Peer TcpState → Result Exc (Peer TcpState)
open_connection peer =
    if peer.transport.is_init
    then raised is_already_initialized
    else ok (record peer { transport = record peer.transport { is_init = true } })

abbrev pub set_blocking : Bool → Bool → TcpState → TcpState
set_blocking on_recv on_send t = record t { block_on_recv = on_recv; block_on_send = on_send }

module _ {F : Type 0} (to_ms : F → ℤ) where
  unfoldable pub validate_timeout : F → Result Exc ℤ
  validate_timeout timeout =
      if ltb_ℤ (to_ms timeout) (pos 0) then raised value_error else ok (to_ms timeout)

  -- PeerTCP(psk, recv_timeout, send_timeout)
  unfoldable pub new_tcp_peer : Bytes → F → F → Result Exc (Peer TcpState)
  new_tcp_peer psk recv_timeout send_timeout = do
    recv_ms ← validate_timeout recv_timeout
    send_ms ← validate_timeout send_timeout
    ok (record {
      proto = new_protocol psk;
      transport = set_blocking true true (record {
        pipes = [];
        sent = [];
        recv_timeout = recv_ms;
        send_timeout = send_ms;
        is_closed = false;
        is_init = false;
        block_on_recv = true;
        block_on_send = true;
      });
    })

  -- `if send is not None: ...`
  unfoldable pub set_send_timeout : Option F → TcpState → TcpState × Result Exc Unit
  set_send_timeout none t = (t, ok tt)
  set_send_timeout (some send) t = elim (validate_timeout send) [
    | raised e ↦ (t, raised e)
    | ok ms ↦ (record t { send_timeout = ms }, ok tt)
  ]

  unfoldable pub set_recv_timeout : Option F → TcpState → TcpState × Result Exc Unit
  set_recv_timeout none t = (t, ok tt)
  set_recv_timeout (some recv) t = elim (validate_timeout recv) [
    | raised e ↦ (t, raised e)
    | ok ms ↦ (record t { recv_timeout = ms }, ok tt)
  ]

  -- set_timeout(recv, send)
  unfoldable pub set_timeouts : Option F → Option F → TcpState → TcpState × Result Exc Unit
  set_timeouts recv send t =
      let (u, outcome) = set_send_timeout send t in
      elim outcome [ raised e ↦ (u, raised e) | ok _ ↦ set_recv_timeout recv u ]
