-- ===== src/Actions.antt =====
-- The scheduler's actions, pkg/scheduler/actions.
pub mod Decorate
pub mod Allocate
pub mod Preempt
