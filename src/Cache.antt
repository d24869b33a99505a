-- ===== src/Cache.antt =====
-- The scheduler's cache, pkg/scheduler/cache: a mirror of the cluster that the informers' events
-- keep up to date, and the calls `Bind`, `Evict` and `Snapshot` of the session.
pub mod Store
pub mod Pods
pub mod Nodes
pub mod Specs
pub mod Calls
pub mod InPlace
pub mod Events
pub mod Unshared
pub mod Sound
pub mod Keep
pub mod Reach
pub mod Mirror
pub mod Snapshot
pub mod Bind
