-- ===== src/Connector/Access.antt =====
-- crates/connector/src/access.rs: whether the customer lets remotehub into the network.
pub mod Defs
pub mod Queries
pub mod Until
pub mod Permit
pub mod Store
pub mod Changes
pub mod Effects
pub mod Listed
pub mod Always
pub mod Running
pub mod Closing
pub mod RanOut
pub mod Rounds
pub mod NextEnd
mod Tests
