-- ===== src/Server.antt =====
-- crates/server: the server's side of remotehub.
pub mod Connectors
pub mod Reports
pub mod Sessions
pub mod Approvals
pub mod SecondFactor
