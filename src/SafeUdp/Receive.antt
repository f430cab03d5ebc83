-- ===== src/SafeUdp/Receive.antt =====
-- pysafeudp/safeudpsock.py: recv and set_peer of SafeUdpSock. The answers of the socket's recvfrom,
-- one for each round of the loop, are a list; the time is up where it ends.
use animacharacter_dev_src.Prelude.{
  Bool, true, Option, none, some, List, [], ◌∷◌, Result, ok, raised, ◌>>=◌, Exc, equal,
  if◌then◌else◌,
}
use animacharacter_dev_src.Prelude.Bytes.{Bytes}
use animacharacter_dev_src.SafeUdp.{
  SocketAddress, address_key, invalid_address, Libraries, SafeUdpSock, resolve_peer, decode_frame,
}

pub data SocketEvent : Type 0 where
  datagram_from : SocketAddress → Bytes → SocketEvent
  connection_reset : SocketEvent
  socket_timeout : SocketEvent

-- the argument recv_from: RCV_OWN_PEER, RCV_EVERYONE or an address
pub data RecvFrom : Type 0 where
  own_peer : RecvFrom
  everyone : RecvFrom
  only : SocketAddress → RecvFrom

-- `from_addr in (None, addr)`
abbrev pub is_wanted : Option SocketAddress → SocketAddress → Bool
is_wanted none addr = true
is_wanted (some from_addr) addr = equal from_addr addr

-- A payload that was decoded makes its sender the latest one.
unfoldable pub note_sender :
    SocketAddress
    → SafeUdpSock × Result Exc (Option Bytes)
    → SafeUdpSock × Result Exc (Option Bytes)
note_sender addr (s, ok (some payload)) = (record s { latest_sender = addr }, ok (some payload))
note_sender addr (s, ok none) = (s, ok none)
note_sender addr (s, raised e) = (s, raised e)

-- A round of the loop ends recv with an exception or a payload, or goes on.
unfoldable pub returned_or :
    SafeUdpSock × Result Exc (Option Bytes)
    → SafeUdpSock
    → Result Exc (Option Bytes)
    → SafeUdpSock × Result Exc (Option Bytes)
returned_or rest t (raised e) = (t, raised e)
returned_or rest t (ok (some payload)) = (t, ok (some payload))
returned_or rest t (ok none) = rest

module _ (lib : Libraries) where
  unfoldable pub recv_datagram :
      Option SocketAddress
      → SocketAddress
      → Bytes
      → SafeUdpSock
      → SafeUdpSock × Result Exc (Option Bytes)
  recv_datagram from_addr addr frame s =
      if is_wanted from_addr addr
      then note_sender addr (decode_frame lib frame addr s)
      else (s, ok none)

  unfoldable pub recv_loop :
      Option SocketAddress
      → List SocketEvent
      → SafeUdpSock
      → SafeUdpSock × Result Exc (Option Bytes)
  recv_loop from_addr [] s = (s, ok none)
  recv_loop from_addr (socket_timeout ∷ events) s = (s, ok none)
  recv_loop from_addr (connection_reset ∷ events) s = recv_loop from_addr events s
  recv_loop from_addr (datagram_from addr frame ∷ events) s =
      let (t, outcome) = recv_datagram from_addr addr frame s in
      let rest = recv_loop from_addr events t in returned_or rest t outcome

  unfoldable pub recv_wanted :
      Result Exc (Option SocketAddress)
      → List SocketEvent
      → SafeUdpSock
      → SafeUdpSock × Result Exc (Option Bytes)
  recv_wanted (raised e) events s = (s, raised e)
  recv_wanted (ok from_addr) events s = recv_loop from_addr events s

  unfoldable pub wanted_address : RecvFrom → SafeUdpSock → Result Exc (Option SocketAddress)
  wanted_address everyone s = ok none
  wanted_address own_peer s = ok (some s.peer)
  wanted_address (only addr) s = do resolved ← resolve_peer lib addr; ok (some resolved)

  unfoldable pub recv :
      RecvFrom → List SocketEvent → SafeUdpSock → SafeUdpSock × Result Exc (Option Bytes)
  recv recv_from events s = recv_wanted (wanted_address recv_from s) events s

  unfoldable pub set_peer : Option SocketAddress → SafeUdpSock → Result Exc SafeUdpSock
  set_peer none s = ok (record s { peer = invalid_address })
  set_peer (some peer_addr) s = do
    new_peer ← resolve_peer lib peer_addr
    ok (record s { peer = new_peer })
