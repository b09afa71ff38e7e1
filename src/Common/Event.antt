-- ===== src/Common/Event.antt =====
-- crates/canal-common/src/types.rs, lines 67 to 195: events, row images and their types.
use canal_rust.Prelude.{ℕ, Option, Bool, List, ◌++◌, if◌then◌else◌, ◌==◌}
use canal_rust.Prelude.Bytes.{Text, bytes, int_to_string}
use canal_rust.Prelude.Int.{ℤ, pos, negsuc}

pub data EventType : Type 0 where
  insert update delete ddl query rotate xid heartbeat : EventType
  unknown : ℤ → EventType

unfoldable pub as_str : EventType → Text
as_str EventType.insert = bytes "INSERT"
as_str EventType.update = bytes "UPDATE"
as_str EventType.delete = bytes "DELETE"
as_str EventType.ddl = bytes "DDL"
as_str EventType.query = bytes "QUERY"
as_str EventType.rotate = bytes "ROTATE"
as_str EventType.xid = bytes "XID"
as_str EventType.heartbeat = bytes "HEARTBEAT"
as_str (EventType.unknown v) = bytes "UNKNOWN"

-- the derived `Debug`
pub debug : EventType → Text
debug EventType.insert = bytes "Insert"
debug EventType.update = bytes "Update"
debug EventType.delete = bytes "Delete"
debug EventType.ddl = bytes "Ddl"
debug EventType.query = bytes "Query"
debug EventType.rotate = bytes "Rotate"
debug EventType.xid = bytes "Xid"
debug EventType.heartbeat = bytes "Heartbeat"
debug (EventType.unknown v) = bytes "Unknown(" ++ (int_to_string v ++ bytes ")")

-- `EventType::from_proto`
unfoldable pub from_proto : ℤ → EventType
from_proto (pos v) =
    if v == 1
    then EventType.insert
    else if v == 2
    then EventType.update
    else if v == 3
    then EventType.delete
    else if v == 4
    then EventType.ddl
    else if v == 5
    then EventType.query
    else if v == 7
    then EventType.ddl
    else if v == 13
    then EventType.xid
    else if v == 15
    then EventType.heartbeat
    else EventType.unknown (pos v)
from_proto (negsuc v) = EventType.unknown (negsuc v)

-- `impl From<i32> for EventType`
unfoldable pub from_i32 : ℤ → EventType
from_i32 (pos v) =
    if v == 1
    then EventType.insert
    else if v == 2
    then EventType.update
    else if v == 3
    then EventType.delete
    else if v == 4
    then EventType.ddl
    else if v == 5
    then EventType.query
    else if v == 6
    then EventType.rotate
    else if v == 7
    then EventType.xid
    else if v == 8
    then EventType.heartbeat
    else EventType.unknown (pos v)
from_i32 (negsuc v) = EventType.unknown (negsuc v)

pub data DmlType : Type 0 where
  insert update delete : DmlType

unfoldable pub dml_as_str : DmlType → Text
dml_as_str DmlType.insert = bytes "INSERT"
dml_as_str DmlType.update = bytes "UPDATE"
dml_as_str DmlType.delete = bytes "DELETE"

pub record ColumnValue : Type 0 where
  pub name : Text
  pub value : Option Text
  pub column_type : ℤ
  pub is_key : Bool
  pub updated : Bool

pub record RowData : Type 0 where
  pub columns : List ColumnValue

pub record RowChange : Type 0 where
  pub table_name : Text
  pub schema_name : Text
  pub before : Option RowData
  pub after : Option RowData
  pub dml_type : DmlType

pub record CanalEvent : Type 0 where
  pub journal_name : Text
  pub position : ℕ
  pub server_id : ℕ
  pub execute_time : ℤ
  pub entry_type : EventType
  pub schema_name : Text
  pub table_name : Text
  pub row_change : Option RowChange
  pub ddl_sql : Option Text
  pub gtid : Option Text
  pub raw_bytes : Text
