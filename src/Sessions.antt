-- ===== src/Sessions.antt =====
-- ros2_ws/src/session_mng/session_mng/session: the manager of the one session and its runner threads.
pub mod Manager
mod Examples
