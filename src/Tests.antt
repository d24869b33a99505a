-- ===== src/Tests.antt =====
-- Runs of the definitions at concrete inputs.
mod Data
mod Jobs
mod Nodes
mod Caches
mod Sessions
mod Calls
mod Actions
mod Placements
mod Controllers
mod Commands
mod Kinds
mod Queues
mod Mirrors
mod Choices
