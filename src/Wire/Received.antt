-- ===== src/Wire/Received.antt =====
-- The event that a client gets for an event that the server sent: conversion.rs of crates/canal-server
-- and the client's conversions in crates/canal-client/src/lib.rs.
use canal_rust.Prelude.{Option, none, some, Bool, false, List, [], ◌∷◌, map}
use canal_rust.Prelude.Bytes.{Text}
use canal_rust.Common.Event.{EventType, ColumnValue, RowData, RowChange, CanalEvent}

-- The type that arrives: DDL, query and rotate events share one protobuf type.
abbrev pub received_type : EventType → EventType
received_type EventType.query = EventType.ddl
received_type EventType.rotate = EventType.ddl
received_type t = t

-- The images that arrive: one without columns is none, and only an after-image keeps its marks.
abbrev pub kept : List ColumnValue → Option RowData
kept [] = none
kept (c ∷ cs) = some (record { columns = c ∷ cs })

abbrev pub received_image : (ColumnValue → ColumnValue) → Option RowData → Option RowData
received_image f none = none
received_image f (some row) = kept (map f row.columns)

abbrev pub marked_by : (ColumnValue → Bool) → ColumnValue → ColumnValue
marked_by mark c = record c { updated = mark c }

abbrev pub unmarked : ColumnValue → ColumnValue
unmarked c = record c { updated = false }

abbrev pub same : ColumnValue → ColumnValue
same c = c

abbrev pub received_change : CanalEvent → RowChange → RowChange
received_change event change = record {
  table_name = event.table_name;
  schema_name = event.schema_name;
  before = received_image unmarked change.before;
  after = received_image same change.after;
  dml_type = change.dml_type;
}

abbrev pub received_ddl : Option RowChange → Option Text → Option Text
received_ddl none ddl_sql = ddl_sql
received_ddl (some change) ddl_sql = none

abbrev pub received_gtid : Option Text → Option Text
received_gtid none = none
received_gtid (some []) = none
received_gtid (some (c ∷ cs)) = some (c ∷ cs)

abbrev pub received_row : CanalEvent → Option RowChange → Option RowChange
received_row event none = none
received_row event (some change) = some (received_change event change)

-- The event that a client must get for an event that was sent with the given `store_value`.
abbrev pub received : CanalEvent → Text → CanalEvent
received event store_value = record event {
  entry_type = received_type event.entry_type;
  row_change = received_row event event.row_change;
  ddl_sql = received_ddl event.row_change event.ddl_sql;
  gtid = received_gtid event.gtid;
  raw_bytes = store_value;
}
