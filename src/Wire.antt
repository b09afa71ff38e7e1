-- ===== src/Wire.antt =====
-- Events as protobuf entries: crates/canal-server/src/conversion.rs, and the client's decoding in
-- crates/canal-client/src/lib.rs.
pub mod Proto
pub mod Conversion
pub mod Decoding
pub mod Received
pub mod RoundTrip
mod Tests
