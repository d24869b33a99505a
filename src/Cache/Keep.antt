-- ===== src/Cache/Keep.antt =====
-- Proofs that the handlers and calls of the cache keep it sound, a module for each group.
pub mod Pods
pub mod Nodes
pub mod Specs
pub mod Calls
