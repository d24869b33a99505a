-- ===== src/Plugins.antt =====
-- The scheduler's plugins, pkg/scheduler/plugins.
pub mod Priority
pub mod Gang
pub mod Drf
