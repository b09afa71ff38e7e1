-- ===== src/Wire/Conversion.antt =====
-- crates/canal-server/src/conversion.rs: from an event to the entry that is sent.
use canal_rust.Prelude.{
  Option, none, some, Bool, true, false, List, [], ◌∷◌, ◌++◌, map, length, is_empty, if◌then◌else◌,
}
use canal_rust.Prelude.Bytes.{Text, bytes, int_to_string}
use canal_rust.Prelude.Int.{ℤ, pos}
use canal_rust.Prelude.Words.{u64_as_i64}
use canal_rust.Common.CanalError.{CanalError, CanalResult, ok, err, protocol, ◌>>=◌}
use canal_rust.Common.Event.{EventType, DmlType, ColumnValue, RowData, RowChange, CanalEvent}
use canal_rust.Wire.Proto.{Column, ProtoRowChange, no_change, Header, Entry}

pub unknown_event_type : ℤ → CanalError
unknown_event_type v =
    protocol
      (bytes "unknown event type " ++ (int_to_string v ++ bytes " — cannot serialize to proto"))

unfoldable pub proto_event_type : EventType → CanalResult ℤ
proto_event_type EventType.insert = ok (pos 1)
proto_event_type EventType.update = ok (pos 2)
proto_event_type EventType.delete = ok (pos 3)
proto_event_type EventType.ddl = ok (pos 7)
proto_event_type EventType.query = ok (pos 7)
proto_event_type EventType.rotate = ok (pos 7)
proto_event_type EventType.xid = ok (pos 13)
proto_event_type EventType.heartbeat = ok (pos 15)
proto_event_type (EventType.unknown v) = err (unknown_event_type v)

-- `unwrap_or_default` of an optional string
abbrev pub or_default : Option Text → Text
or_default none = []
or_default (some t) = t

-- `is_null_present`, set for a null alone
abbrev pub null_mark : Option Text → Option Bool
null_mark none = some true
null_mark (some v) = none

unfoldable pub column_value_to_proto : ColumnValue → Bool → Column
column_value_to_proto col updated = record {
  index = pos 0;
  sql_type = col.column_type;
  name = col.name;
  is_key = col.is_key;
  updated = updated;
  value = or_default col.value;
  length = pos 0;
  mysql_type = int_to_string col.column_type;
  is_null_present = null_mark col.value;
}

unfoldable pub dml_to_proto : DmlType → ℤ
dml_to_proto DmlType.insert = pos 1
dml_to_proto DmlType.update = pos 2
dml_to_proto DmlType.delete = pos 3

abbrev pub columns_of : Option RowData → List ColumnValue
columns_of none = []
columns_of (some row) = row.columns

unfoldable pub row_change_to_proto : RowChange → ProtoRowChange
row_change_to_proto change = record no_change {
  event_type_present = some (dml_to_proto change.dml_type);
  row_datas =
      record {
        before_columns = map (λ col. column_value_to_proto col false) (columns_of change.before);
        after_columns =
            map (λ col. column_value_to_proto col col.updated) (columns_of change.after);
      }
      ∷ [];
}

-- What `store_value` encodes: the row change, else the DDL statement, else the type alone.
unfoldable pub store_change_of : ℤ → Text → Option RowChange → Option Text → ProtoRowChange
store_change_of event_type schema (some change) ddl_sql = row_change_to_proto change
store_change_of event_type schema none (some sql) = record no_change {
  sql = sql;
  is_ddl_present = some true;
  event_type_present = some (pos 7);
  ddl_schema_name = schema;
}
store_change_of event_type schema none none = record no_change {
  event_type_present = some event_type;
}

abbrev pub store_change : ℤ → CanalEvent → ProtoRowChange
store_change event_type event =
    store_change_of event_type event.schema_name event.row_change event.ddl_sql

unfoldable pub header_of : ℤ → CanalEvent → Text → Header
header_of event_type event store_value = record {
  logfile_name = event.journal_name;
  logfile_offset = u64_as_i64 event.position;
  server_id = u64_as_i64 event.server_id;
  serveren_code = [];
  execute_time = event.execute_time;
  schema_name = event.schema_name;
  table_name = event.table_name;
  event_length =
      u64_as_i64 (if is_empty store_value then length event.raw_bytes else length store_value);
  gtid = or_default event.gtid;
  version_present = none;
  source_type_present = some (pos 2);
  event_type_present = some event_type;
}

-- `encode` is `prost::Message::encode_to_vec` of a `RowChange`.
module _ (encode : ProtoRowChange → Text) where
  abbrev pub entry_of : ℤ → CanalEvent → Entry
  entry_of event_type event =
      let store_value = encode (store_change event_type event) in
      record {
        header = some (header_of event_type event store_value);
        store_value = store_value;
        entry_type_present = none;
      }

  unfoldable pub canal_event_to_entry : CanalEvent → CanalResult Entry
  canal_event_to_entry event = do
    event_type ← proto_event_type event.entry_type
    ok (entry_of event_type event)
