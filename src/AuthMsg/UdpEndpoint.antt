-- ===== src/AuthMsg/UdpEndpoint.antt =====
-- authmsg/udp_endpoint.py: the non-blocking datagram socket, its synchronous and asynchronous
-- calls. What the socket, select and asyncio answer are arguments, and the datagrams handed to the
-- socket are kept in `sent`. Calls on a closed socket are not modelled.
use animacharacter_dev_src.Prelude.{
  ℕ, String, Bool, true, false, Option, none, some, List, [], ◌∷◌, ◌++◌, Result, ok, raised, ◌>>=◌,
  Exc, value_error, os_error, Float, if◌then◌else◌,
}
use animacharacter_dev_src.Prelude.Bytes.{Bytes}

abbrev pub Address : Type 0
Address = String × ℕ

pub record UdpEndpoint (F : Type 0) : Type 0 where
  pub timeout : F
  pub peer_addr : Option Address
  pub sent : List Bytes
  pub is_closed : Bool

-- How the operating system answers a call that waits for the socket: it is not ready in time, the
-- call on the ready socket fails, or the call succeeds with a value.
pub data Answer (A : Type 0) : Type 0 where
  timed_out : Answer A
  failed : Answer A
  got : A → Answer A

abbrev pub datagram : Answer Bytes → Option Bytes
datagram (got packet) = some packet
datagram timed_out = none
datagram failed = none

module _ {F : Type 0} where
  -- UDPEndpoint(bind_port, bind_host, timeout) with a socket that could be bound
  abbrev pub new_endpoint : F → UdpEndpoint F
  new_endpoint timeout = record {
    timeout = timeout;
    peer_addr = none;
    sent = [];
    is_closed = false;
  }

  -- the setter of the property timeout
  unfoldable pub set_endpoint_timeout :
      ⦃f : Float F⦄ → F → UdpEndpoint F → Result Exc (UdpEndpoint F)
  set_endpoint_timeout ⦃f⦄ val udp =
      if f.lt_f val f.zero_f then raised value_error else ok (record udp { timeout = val })

  abbrev pub close_endpoint : UdpEndpoint F → UdpEndpoint F
  close_endpoint udp = record udp { is_closed = true }

  -- `connect`; the socket's own connect raises OSError where the address has no host
  unfoldable pub connect : Bool → Address → UdpEndpoint F → UdpEndpoint F × Result Exc Unit
  connect connects address udp =
      (record udp { peer_addr = some address }, if connects then ok tt else raised os_error)

  unfoldable pub require_peer : UdpEndpoint F → Result Exc Address
  require_peer udp = elim udp.peer_addr [ none ↦ raised value_error | some address ↦ ok address ]

  unfoldable pub answer_send : Bytes → UdpEndpoint F → Answer Unit → UdpEndpoint F × Result Exc Bool
  answer_send packet udp (got _) = (record udp { sent = udp.sent ++ packet ∷ [] }, ok true)
  answer_send packet udp timed_out = (udp, ok false)
  answer_send packet udp failed = (udp, ok false)

  -- `send` and `asend`
  unfoldable pub endpoint_send :
      Answer Unit → Bytes → UdpEndpoint F → UdpEndpoint F × Result Exc Bool
  endpoint_send answer packet udp = elim (require_peer udp) [
    | raised e ↦ (udp, raised e)
    | ok _ ↦ answer_send packet udp answer
  ]

  -- `recv` and `arecv`
  unfoldable pub endpoint_recv : Answer Bytes → UdpEndpoint F → Result Exc (Option Bytes)
  endpoint_recv answer udp = do _ ← require_peer udp; ok (datagram answer)
