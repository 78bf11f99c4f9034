-- ===== src/Directory.antt =====
-- crates/directory: what remotehub reads of a customer's directory.
pub mod Sid
