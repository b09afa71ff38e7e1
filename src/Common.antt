-- ===== src/Common.antt =====
-- crates/canal-common: the types that every crate shares.
pub mod CanalError
pub mod LogPosition
pub mod Event
pub mod Events
pub mod Regex
mod Tests
