-- ===== src/Gateway/Guacamole.antt =====
-- crates/gateway/src/guacamole.rs: instructions as bytes, and the parser of a stream of them.
pub mod Defs
pub mod Elements
pub mod Sent
pub mod RoundTrip
pub mod Stream
mod Tests
