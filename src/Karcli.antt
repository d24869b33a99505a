-- ===== src/Karcli.antt =====
-- The command line client, pkg/karcli/job.
pub mod Split
pub mod Requests
pub mod Print
pub mod Run
pub mod Launch
