-- ===== src/AuthMsg.antt =====
-- Authenticated messages: the package authmsg of shared_libs.
pub mod Protocol
pub mod WireProtocol
pub mod Peer
pub mod UdpEndpoint
pub mod UdpPeer
pub mod TcpPeer
mod Examples
