-- ===== src/Framework.antt =====
-- Sessions, pkg/scheduler/framework: their state, the functions that plugins register, and the calls
-- that the actions make.
pub mod Session
pub mod Order
pub mod Calls
pub mod Frame
pub mod Uids
pub mod Owned
pub mod Commit
pub mod Bindings
pub mod Kept
pub mod Charges
