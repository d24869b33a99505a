-- ===== src/Api.antt =====
-- The scheduler's data model, pkg/scheduler/api: resources, task statuses, the Kubernetes objects
-- that it reads, and the task, job and node records with their accounting.
pub mod Resource
pub mod Status
pub mod Objects
pub mod TaskInfo
pub mod Requested
pub mod JobInfo
pub mod NodeInfo
