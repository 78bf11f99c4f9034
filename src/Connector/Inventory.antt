-- ===== src/Connector/Inventory.antt =====
-- crates/connector/src/inventory.rs: the list of devices and groups, and what stays true of it.
pub mod Defs
pub mod Valid
pub mod Groups
pub mod Removal
pub mod Edits
pub mod Lookup
pub mod Written
pub mod WrittenPorts
