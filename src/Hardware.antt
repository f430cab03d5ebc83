-- ===== src/Hardware.antt =====
-- ros2_ws/src/hardware_mng: the databus that controllers share, the threaded loops that run them, and
-- the reconciler that brings them to the states wanted.
pub mod Databus
pub mod Looper
pub mod Controller
pub mod Reconciler
mod Examples
