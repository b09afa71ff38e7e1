-- ===== src/Binlog.antt =====
-- crates/canal-binlog: the replication stream of MySQL as canal events.
pub mod TableMap
pub mod Converter
pub mod Value
pub mod Lifecycle
pub mod ColumnSerde
pub mod Connector
pub mod Replication
pub mod Marks
pub mod RowSpec
pub mod Messages
pub mod Sends
pub mod Rows
pub mod Loop
mod Tests
