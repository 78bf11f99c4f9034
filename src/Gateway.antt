-- ===== src/Gateway.antt =====
-- crates/gateway: what remotehub speaks to the engines that draw a device's screen.
pub mod Guacamole
