-- ===== src/Binlog/Tests.antt =====
-- A concrete table and its row events, for crates/canal-binlog.
use canal_rust.Prelude.{
  ℕ, zero, suc, ◌+◌, ◌≡◌, refl, Option, none, some, Bool, true, false, List, [], ◌∷◌, ◌++◌, map,
  get_elem?, ◌==◌, if◌then◌else◌,
}
use canal_rust.Prelude.Bytes.{Text, bytes}
use canal_rust.Prelude.Int.{pos}
use canal_rust.Common.CanalError.{ok, err}
use canal_rust.Common.Event.{ColumnValue}
use canal_rust.Binlog.TableMap
use canal_rust.Binlog.TableMap.{ColumnInfo, TableMapCache, get-put, get-put_with_columns}
use canal_rust.Binlog.Converter.{EventConverter}
use canal_rust.Binlog.Connector.{Channel, EventHeader, BinlogEvent, process_and_send}
use canal_rust.Binlog.Replication.{NextOutcome, init, run}
use canal_rust.Binlog.Messages.{inserted, deleted, updated, unknown}
use canal_rust.Binlog.Rows.{described, process_and_send-rows, process_and_send-unknown}
use canal_rust.Binlog.Loop.{IsQuiet, run-IsQuiet}

abbrev cache : TableMapCache
cache = record {
  names = (7, (bytes "db", bytes "old")) ∷ [];
  columns =
      (
        7,
        record { name = bytes "id"; column_type = pos 3; is_key = true; is_nullable = false } ∷ [],
      )
      ∷ [];
}

abbrev column : Text → ColumnValue
column value = record {
  name = bytes "id";
  value = some value;
  column_type = pos 3;
  is_key = true;
  updated = false;
}

abbrev header : EventHeader
header = record { timestamp = 100; server_id = 1; next_event_position = 900 }

abbrev converter : EventConverter
converter = record { table_map = cache }

abbrev tx : Channel
tx = record { sent = []; attempts = 0; open_at = λ n. true }

abbrev same : Text → Text
same t = t

abbrev cells : List (Option Text) → List ColumnValue
cells = described same (TableMap.get_columns 7 converter.table_map)

known : TableMap.get 7 converter.table_map ≡ some (bytes "db", bytes "old")
unfolding TableMap.get canal_rust.Prelude.Dict.lookup
known = refl

process_and_send-rows_example :
    ((rows : List (List (Option Text)))
      → let done =
          process_and_send same header
            (BinlogEvent.write_rows 7 rows)
            converter
            (bytes "b.1")
            none
            tx in
        (done.0 ≡ ok tt)
        × (done.2.sent
            ≡ tx.sent
              ++ map
                  (λ row.
                    ok (inserted header (bytes "b.1") none (bytes "db") (bytes "old") (cells row)))
                  rows))
    × ((rows : List (List (Option Text)))
        → let done =
            process_and_send same header
              (BinlogEvent.delete_rows 7 rows)
              converter
              (bytes "b.1")
              none
              tx in
          (done.0 ≡ ok tt)
          × (done.2.sent
              ≡ tx.sent
                ++ map
                    (λ row.
                      ok (deleted header (bytes "b.1") none (bytes "db") (bytes "old") (cells row)))
                    rows))
    × ((rows : List (List (Option Text) × List (Option Text)))
        → let done =
            process_and_send same header
              (BinlogEvent.update_rows 7 rows)
              converter
              (bytes "b.1")
              none
              tx in
          (done.0 ≡ ok tt)
          × (done.2.sent
              ≡ tx.sent
                ++ map
                    (λ row. ok (
                      updated header
                        (bytes "b.1")
                        none
                        (bytes "db")
                        (bytes "old")
                        (cells row.0)
                        (cells row.1)))
                    rows))
process_and_send-rows_example =
    process_and_send-rows same header 7 converter (bytes "b.1") (bytes "db") (bytes "old") none tx
      known (λ n. refl)

lacking : TableMap.get 8 converter.table_map ≡ none
unfolding TableMap.get canal_rust.Prelude.Dict.lookup
lacking = refl

process_and_send-unknown_example :
    ((rows : List (List (Option Text)))
      → let done =
          process_and_send same header
            (BinlogEvent.write_rows 8 rows)
            converter
            (bytes "b.1")
            none
            tx in
        (done.0 ≡ ok tt) × (done.2.sent ≡ tx.sent ++ map (λ row. err (unknown 8)) rows))
    × ((rows : List (List (Option Text)))
        → let done =
            process_and_send same header
              (BinlogEvent.delete_rows 8 rows)
              converter
              (bytes "b.1")
              none
              tx in
          (done.0 ≡ ok tt) × (done.2.sent ≡ tx.sent ++ map (λ row. err (unknown 8)) rows))
    × ((rows : List (List (Option Text) × List (Option Text)))
        → let done =
            process_and_send same header
              (BinlogEvent.update_rows 8 rows)
              converter
              (bytes "b.1")
              none
              tx in
          (done.0 ≡ ok tt) × (done.2.sent ≡ tx.sent ++ map (λ row. err (unknown 8)) rows))
process_and_send-unknown_example =
    process_and_send-unknown same header 8 converter (bytes "b.1") none tx lacking (λ n. refl)

abbrev stream : List (Bool × NextOutcome Text)
stream =
    (false, NextOutcome.item header (BinlogEvent.write_rows 8 ([] ∷ [])))
    ∷ (false, NextOutcome.panicked (bytes "bad value"))
    ∷ []

started : IsQuiet (init (bytes "b.1") tx)
unfolding init
started = record { no_errors = refl; no_error_pos = refl }

run-IsQuiet_example : IsQuiet (run same stream (init (bytes "b.1") tx))
run-IsQuiet_example = run-IsQuiet same stream (init (bytes "b.1") tx) started
