-- ===== src/Catalog.antt =====
-- crates/model/src/lib.rs, the only place that decides permissions: the definitions in `Defs` and
-- `Roles`, and what is proved of them.
pub mod Defs
pub mod Roles
pub mod Path
pub mod Grants
pub mod Authorize
pub mod Rights
pub mod Reasons
pub mod Listed
pub mod Visible
mod Tests
