-- ===== src/Server/Connectors.antt =====
-- crates/server/src/connectors.rs: the connectors that are online and what is asked of them.
pub mod Defs
pub mod Asks
pub mod Steps
pub mod Kept
pub mod Online
pub mod Counted
pub mod Waiting
pub mod Answered
mod Tests
