-- ===== src/Client.antt =====
-- The client of the API server, pkg/client, as far as it is written by hand.
pub mod Kinds
