-- ===== src/Binlog/Messages.antt =====
-- The event that one row becomes: crates/canal-binlog/src/connector.rs and converter.rs.
use canal_rust.Prelude.{ℕ, ◌+◌, ◌≡◌, refl, ap, Option, none, some, true, List, [], ◌∷◌, ◌++◌}
use canal_rust.Prelude.Bytes.{Text, bytes, decimal}
use canal_rust.Prelude.Int.{pos}
use canal_rust.Binlog.RowSpec.{marked_after, mark_updated-marked_after}
use canal_rust.Common.CanalError.{CanalError, CanalResult, ok, err}
use canal_rust.Common.Event.{EventType, DmlType, ColumnValue, CanalEvent}
use canal_rust.Binlog.TableMap
use canal_rust.Binlog.Converter
use canal_rust.Binlog.Converter.{
  EventConverter, value_eq, mark_updated, handle_row_event, handle_update_row_event, found_table,
}
use canal_rust.Binlog.Connector.{Channel, blocking_send, EventHeader, row_message, row_event}

pub send-open :
    (m : CanalResult CanalEvent) (tx : Channel)
    → ((n : ℕ) → tx.open_at n ≡ true)
    → (blocking_send m tx).1 ≡ record tx { sent = tx.sent ++ m ∷ []; attempts = tx.attempts + 1 }
unfolding blocking_send
send-open m tx h = rw (h tx.attempts) refl

-- The event that an inserted row must become
abbrev pub inserted : EventHeader → Text → Option Text → Text → Text → List ColumnValue → CanalEvent
inserted header file gtid schema table columns = record {
  journal_name = file;
  position = header.next_event_position;
  server_id = header.server_id;
  execute_time = pos header.timestamp;
  entry_type = EventType.insert;
  schema_name = schema;
  table_name = table;
  row_change = some (record {
    table_name = table;
    schema_name = schema;
    before = none;
    after = some (record { columns = columns });
    dml_type = DmlType.insert;
  });
  ddl_sql = none;
  gtid = gtid;
  raw_bytes = [];
}

abbrev pub deleted : EventHeader → Text → Option Text → Text → Text → List ColumnValue → CanalEvent
deleted header file gtid schema table columns = record {
  journal_name = file;
  position = header.next_event_position;
  server_id = header.server_id;
  execute_time = pos header.timestamp;
  entry_type = EventType.delete;
  schema_name = schema;
  table_name = table;
  row_change = some (record {
    table_name = table;
    schema_name = schema;
    before = some (record { columns = columns });
    after = none;
    dml_type = DmlType.delete;
  });
  ddl_sql = none;
  gtid = gtid;
  raw_bytes = [];
}

abbrev pub updated :
    EventHeader
    → Text
    → Option Text
    → Text
    → Text
    → List ColumnValue
    → List ColumnValue
    → CanalEvent
updated header file gtid schema table before after = record {
  journal_name = file;
  position = header.next_event_position;
  server_id = header.server_id;
  execute_time = pos header.timestamp;
  entry_type = EventType.update;
  schema_name = schema;
  table_name = table;
  row_change = some (record {
    table_name = table;
    schema_name = schema;
    before = some (record { columns = before });
    after = some (record { columns = marked_after before after });
    dml_type = DmlType.update;
  });
  ddl_sql = none;
  gtid = gtid;
  raw_bytes = [];
}

found_table-known :
    (table_id : ℕ) (c : EventConverter) (names : Text × Text)
    → TableMap.get table_id c.table_map ≡ some names
    → found_table table_id c ≡ ok names
unfolding found_table
found_table-known table_id c names known = ap (Converter.or_unknown table_id) known

module _ (header : EventHeader) (file : Text) (gtid : Option Text) (table_id : ℕ)
    (c : EventConverter) (schema table : Text)
    (known : TableMap.get table_id c.table_map ≡ some (schema, table)) where
  pub row_message-insert :
      (columns : List ColumnValue)
      → row_message header file EventType.insert gtid
          (handle_row_event table_id EventType.insert columns c)
        ≡ ok (inserted header file gtid schema table columns)
  unfolding row_message row_event handle_row_event
  row_message-insert columns = rw (found_table-known table_id c (schema, table) known) refl

  pub row_message-delete :
      (columns : List ColumnValue)
      → row_message header file EventType.delete gtid
          (handle_row_event table_id EventType.delete columns c)
        ≡ ok (deleted header file gtid schema table columns)
  unfolding row_message row_event handle_row_event
  row_message-delete columns = rw (found_table-known table_id c (schema, table) known) refl

  pub row_message-update :
      (before after : List ColumnValue)
      → row_message header file EventType.update gtid
          (handle_update_row_event table_id before after c)
        ≡ ok (updated header file gtid schema table before after)
  unfolding row_message row_event handle_update_row_event
  row_message-update before after = rw (found_table-known table_id c (schema, table) known) (
      ap
        (λ t. ok (
          row_event header file EventType.update gtid (record {
            table_name = table;
            schema_name = schema;
            before = some (record { columns = before });
            after = some (record { columns = t });
            dml_type = DmlType.update;
          })))
        (mark_updated-marked_after before after))

-- The error for a table that the table map does not know
abbrev pub unknown : ℕ → CanalError
unknown table_id = CanalError.not_found (
    bytes "table_id "
    ++ (decimal table_id ++ bytes " not found in TableMap — did you call handle_table_map_event?"))

found_table-unknown :
    (table_id : ℕ) (c : EventConverter)
    → TableMap.get table_id c.table_map ≡ none
    → found_table table_id c ≡ err (unknown table_id)
unfolding found_table Converter.unknown_table
found_table-unknown table_id c lacking = ap (Converter.or_unknown table_id) lacking

module _ (header : EventHeader) (file : Text) (gtid : Option Text) (table_id : ℕ)
    (c : EventConverter) (lacking : TableMap.get table_id c.table_map ≡ none) where
  pub row_message-unknown :
      (entry_type : EventType) (columns : List ColumnValue)
      → row_message header file entry_type gtid (handle_row_event table_id entry_type columns c)
        ≡ err (unknown table_id)
  unfolding row_message handle_row_event
  row_message-unknown entry_type columns = rw (found_table-unknown table_id c lacking) refl

  pub update_message-unknown :
      (before after : List ColumnValue)
      → row_message header file EventType.update gtid
          (handle_update_row_event table_id before after c)
        ≡ err (unknown table_id)
  unfolding row_message handle_update_row_event
  update_message-unknown before after = rw (found_table-unknown table_id c lacking) refl
