-- ===== src/Connector/Requests.antt =====
-- crates/connector/src/requests.rs: what remotehub asks for, and what the customer answered.
pub mod Defs
pub mod Bounds
pub mod Readable
pub mod Answers
mod Tests
