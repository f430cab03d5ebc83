-- ===== src/Behaviors.antt =====
-- libs/behavior_engine: the registry of behaviours.
pub mod Registry
pub mod Executor
pub mod Context
mod Examples
