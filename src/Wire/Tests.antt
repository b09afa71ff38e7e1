-- ===== src/Wire/Tests.antt =====
-- One event on its way to a client.
use canal_rust.Prelude.{◌≡◌, refl, Option, none, some, true, [], ◌∷◌, arith}
use canal_rust.Prelude.Bytes.{Text, bytes}
use canal_rust.Prelude.Int.{pos}
use canal_rust.Common.CanalError.{Result, ok}
use canal_rust.Common.Event.{EventType, DmlType, ColumnValue, RowChange, CanalEvent}
use canal_rust.Wire.Proto.{ProtoRowChange, Entry}
use canal_rust.Wire.Conversion.{proto_event_type, store_change, entry_of, canal_event_to_entry}
use canal_rust.Wire.Decoding.{entry_bytes_to_event}
use canal_rust.Wire.Received.{received}
use canal_rust.Wire.RoundTrip.{entry_bytes_to_event-canal_event_to_entry}

abbrev column : ColumnValue
column = record {
  name = bytes "id";
  value = none;
  column_type = pos 3;
  is_key = true;
  updated = true;
}

abbrev change : RowChange
change = record {
  table_name = bytes "t";
  schema_name = bytes "db";
  before = none;
  after = some (record { columns = column ∷ [] });
  dml_type = DmlType.insert;
}

abbrev event : CanalEvent
event = record {
  journal_name = bytes "b.1";
  position = 18446744073709551615;
  server_id = 1;
  execute_time = pos 100;
  entry_type = EventType.insert;
  schema_name = bytes "db";
  table_name = bytes "t";
  row_change = some change;
  ddl_sql = none;
  gtid = none;
  raw_bytes = [];
}

-- A protobuf library that knows these two messages.
abbrev encode_change : ProtoRowChange → Text
encode_change rc = 1 ∷ rc.sql

abbrev decode_change : Text → Option ProtoRowChange
decode_change bs = some (store_change (pos 1) event)

abbrev encode_entry : Entry → Text
encode_entry entry = 2 ∷ entry.store_value

abbrev decode_entry : Text → Result Entry Text
decode_entry bs = ok (entry_of encode_change (pos 1) event)

insert_number : proto_event_type event.entry_type ≡ ok (pos 1)
unfolding proto_event_type
insert_number = refl

entry_bytes_to_event-canal_event_to_entry_example :
    (canal_event_to_entry encode_change event ≡ ok (entry_of encode_change (pos 1) event))
    × (entry_bytes_to_event decode_entry decode_change
          (encode_entry (entry_of encode_change (pos 1) event))
        ≡ ok (received event (encode_change (store_change (pos 1) event))))
entry_bytes_to_event-canal_event_to_entry_example =
    entry_bytes_to_event-canal_event_to_entry encode_change decode_change encode_entry decode_entry
      event (pos 1) insert_number (omega arith) (omega arith) refl refl refl
