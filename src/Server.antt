-- ===== src/Server.antt =====
-- crates/canal-server/src: sessions, and the connection of one client as a state machine over the
-- packets that it sends.
pub mod Session
pub mod Connection
pub mod Auth
pub mod Fetch
pub mod Cursor
pub mod Client
pub mod Serve
pub mod Locked
pub mod Keeps
pub mod Invariant
pub mod Acks
pub mod Reading
pub mod Sent
pub mod Keeping
pub mod Sequence
pub mod Leaving
pub mod Examples
mod Tests
