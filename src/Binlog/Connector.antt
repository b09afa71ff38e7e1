-- ===== src/Binlog/Connector.antt =====
-- crates/canal-binlog/src/connector.rs, `process_and_send`, `send_row_events` and
-- `send_update_events`: what one event of the stream puts on the channel.
use canal_rust.Prelude.{
  ℕ, zero, suc, ◌+◌, Option, none, some, Bool, true, false, List, [], ◌∷◌, ◌++◌, length, ltb,
  if◌then◌else◌,
}
use canal_rust.Prelude.Bytes.{Text}
use canal_rust.Prelude.Int.{pos}
use canal_rust.Common.CanalError.{CanalResult, ok, err}
use canal_rust.Common.Event.{EventType, RowChange, CanalEvent}
use canal_rust.Binlog.TableMap.{ColumnInfo}
use canal_rust.Binlog.Converter
use canal_rust.Binlog.Converter.{EventConverter}
use canal_rust.Binlog.ColumnSerde.{TableMapEvent, build_column_infos, extract_column_values}

-- `mpsc::Sender`: what was sent, and whether the `n`-th send finds the receiver alive.
pub record Channel : Type 0 where
  pub sent : List (CanalResult CanalEvent)
  pub attempts : ℕ
  pub open_at : ℕ → Bool

-- `tx.blocking_send(message)`, and whether it was delivered
unfoldable pub blocking_send : CanalResult CanalEvent → Channel → Bool × Channel
blocking_send message tx =
    if tx.open_at tx.attempts
    then (true, record tx { sent = tx.sent ++ message ∷ []; attempts = tx.attempts + 1 })
    else (false, record tx { attempts = tx.attempts + 1 })

pub record EventHeader : Type 0 where
  pub timestamp : ℕ
  pub server_id : ℕ
  pub next_event_position : ℕ

-- The events of `mysql_cdc` that the program tells apart, over its cell values.
pub data BinlogEvent (V : Type 0) : Type 0 where
  table_map : TableMapEvent → BinlogEvent V
  rotate : Text → BinlogEvent V
  heartbeat xid : BinlogEvent V
  query : Text → Text → BinlogEvent V
  write_rows : ℕ → List (List (Option V)) → BinlogEvent V
  update_rows : ℕ → List (List (Option V) × List (Option V)) → BinlogEvent V
  delete_rows : ℕ → List (List (Option V)) → BinlogEvent V
  mysql_gtid : Text → BinlogEvent V
  mariadb_gtid : Text → BinlogEvent V
  other : BinlogEvent V

abbrev ddl_sql_max_len : ℕ
ddl_sql_max_len = 65536

-- `s.chars().take(n).collect()`: in UTF-8 a byte from 0x80 to 0xbf goes on with a character.
take_chars : ℕ → Text → Text
take_chars n [] = []
take_chars zero (c ∷ cs) =
    if ltb c 0x80 then [] else if ltb c 0xc0 then c ∷ take_chars zero cs else []
take_chars (suc n) (c ∷ cs) =
    c ∷ take_chars (if ltb c 0x80 then n else if ltb c 0xc0 then suc n else n) cs

unfoldable pub truncate_sql : Text → Text
unfolding take_chars
truncate_sql sql = if ltb ddl_sql_max_len (length sql) then take_chars ddl_sql_max_len sql else sql

-- The event that carries a row change.
unfoldable pub row_event : EventHeader → Text → EventType → Option Text → RowChange → CanalEvent
row_event header file entry_type gtid change = record {
  journal_name = file;
  position = header.next_event_position;
  server_id = header.server_id;
  execute_time = pos header.timestamp;
  entry_type = entry_type;
  schema_name = change.schema_name;
  table_name = change.table_name;
  row_change = some change;
  ddl_sql = none;
  gtid = gtid;
  raw_bytes = [];
}

unfoldable pub ddl_event : EventHeader → Text → Option Text → Text → Text → CanalEvent
ddl_event header file gtid database_name sql_statement = record {
  journal_name = file;
  position = header.next_event_position;
  server_id = header.server_id;
  execute_time = pos header.timestamp;
  entry_type = EventType.ddl;
  schema_name = database_name;
  table_name = [];
  row_change = none;
  ddl_sql = some (truncate_sql sql_statement);
  gtid = gtid;
  raw_bytes = [];
}

-- The two arms of `match converter.handle_row_event(...)`.
unfoldable pub row_message :
    EventHeader → Text → EventType → Option Text → CanalResult RowChange → CanalResult CanalEvent
row_message header file entry_type gtid (ok change) =
    ok (row_event header file entry_type gtid change)
row_message header file entry_type gtid (err e) = err e

abbrev pub columns_of : ℕ → EventConverter → List ColumnInfo
columns_of table_id converter = elim (Converter.get_columns table_id converter) [
  | none ↦ []
  | some cols ↦ cols
]

module _ {V : Type 0} (to_string : V → Text) where
  unfoldable pub send_row_events :
      EventHeader
      → Text
      → EventType
      → ℕ
      → List (List (Option V))
      → EventConverter
      → Option Text
      → Channel
      → CanalResult (Unit {0}) × Channel
  send_row_events header file entry_type table_id [] converter gtid tx = (ok tt, tx)
  send_row_events header file entry_type table_id (row ∷ rows) converter gtid tx =
      let values = extract_column_values to_string row (columns_of table_id converter) in
      let change = Converter.handle_row_event table_id entry_type values converter in
      send_row_events header file entry_type table_id rows converter gtid
        (blocking_send (row_message header file entry_type gtid change) tx).1

  unfoldable pub send_update_events :
      EventHeader
      → Text
      → ℕ
      → List (List (Option V) × List (Option V))
      → EventConverter
      → Option Text
      → Channel
      → CanalResult (Unit {0}) × Channel
  send_update_events header file table_id [] converter gtid tx = (ok tt, tx)
  send_update_events header file table_id ((before, after) ∷ rows) converter gtid tx =
      let columns = columns_of table_id converter in
      let before_values = extract_column_values to_string before columns in
      let after_values = extract_column_values to_string after columns in
      let change =
        Converter.handle_update_row_event table_id before_values after_values converter in
      send_update_events header file table_id rows converter gtid
        (blocking_send (row_message header file EventType.update gtid change) tx).1

  unfoldable pub process_and_send :
      EventHeader
      → BinlogEvent V
      → EventConverter
      → Text
      → Option Text
      → Channel
      → CanalResult (Unit {0}) × EventConverter × Channel
  process_and_send header (table_map e) converter file gtid tx = (
    ok tt,
    Converter.handle_table_map_event e.table_id e.database_name e.table_name (build_column_infos e)
        converter,
    tx,
  )
  process_and_send header (rotate name) converter file gtid tx =
      (ok tt, Converter.clear_table_map converter, tx)
  process_and_send header heartbeat converter file gtid tx = (ok tt, converter, tx)
  process_and_send header xid converter file gtid tx = (ok tt, converter, tx)
  process_and_send header (query database_name sql) converter file gtid tx =
      (ok tt, converter, (blocking_send (ok (ddl_event header file gtid database_name sql)) tx).1)
  process_and_send header (write_rows table_id rows) converter file gtid tx =
      let done = send_row_events header file EventType.insert table_id rows converter gtid tx in
      (done.0, converter, done.1)
  process_and_send header (update_rows table_id rows) converter file gtid tx =
      let done = send_update_events header file table_id rows converter gtid tx in
      (done.0, converter, done.1)
  process_and_send header (delete_rows table_id rows) converter file gtid tx =
      let done = send_row_events header file EventType.delete table_id rows converter gtid tx in
      (done.0, converter, done.1)
  process_and_send header _ converter file gtid tx = (ok tt, converter, tx)
