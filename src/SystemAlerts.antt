-- ===== src/SystemAlerts.antt =====
-- ros2_ws/src/system_alerts: alerts, the authoritative server and its mirrors in the clients.
pub mod Alert
pub mod Transport
pub mod Server
pub mod Client
mod Examples
