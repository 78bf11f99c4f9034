-- ===== src/Connector.antt =====
-- crates/connector: what the site connector in the customer's network decides by.
pub mod Inventory
pub mod Access
pub mod Requests
pub mod Agent
pub mod Network
pub mod Sample
mod Tests
