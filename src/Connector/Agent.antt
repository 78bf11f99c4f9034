-- ===== src/Connector/Agent.antt =====
-- crates/connector/src/agent.rs: the connector's way to remotehub, and what it lets through on it.
pub mod Reach
pub mod Listed
pub mod Checked
pub mod Report
pub mod Reported
pub mod Tunnel
pub mod Awake
pub mod Kept
mod Tests
