-- ===== src/Orchestration.antt =====
-- ros2_ws/src/orchestration: the system's state machine, heartbeats, lifecycle control and the
-- supervisor node.
pub mod Fsm
pub mod SystemFsm
pub mod Heartbeats
pub mod EventMapper
pub mod ProcNames
pub mod Lifecycle
pub mod Supervisor
mod Examples
mod NodeExamples
