-- ===== src/Binlog/Rows.antt =====
-- What row events put on the channel: crates/canal-binlog/src/connector.rs and converter.rs.
use canal_rust.Prelude.{ℕ, ◌≡◌, refl, ap, ◌∙◌, Option, none, some, true, List, [], ◌++◌, map}
use mathlib.Core.Path.{fun_ext, ap₂}
use canal_rust.Prelude.Bytes.{Text}
use canal_rust.Common.CanalError.{ok, err}
use canal_rust.Common.Event.{EventType, ColumnValue}
use canal_rust.Binlog.TableMap
use canal_rust.Binlog.TableMap.{ColumnInfo}
use canal_rust.Binlog.RowSpec.{row_columns, extract_column_values-row_columns}
use canal_rust.Binlog.Converter
use canal_rust.Binlog.Converter.{EventConverter, handle_row_event, handle_update_row_event}
use canal_rust.Binlog.ColumnSerde.{extract_column_values}
use canal_rust.Binlog.Connector.{Channel, EventHeader, BinlogEvent, columns_of, process_and_send}
use canal_rust.Binlog.Messages.{
  inserted, deleted, updated, row_message-insert, row_message-delete, row_message-update, unknown,
  row_message-unknown, update_message-unknown,
}
use canal_rust.Binlog.Sends.{send_row_events-sent, send_update_events-sent}

module _ {V : Type 0} (to_string : V → Text) where
  -- The columns of a row, where the table map knows those of the table, and else by their places
  abbrev pub described : Option (List ColumnInfo) → List (Option V) → List ColumnValue
  described none = row_columns to_string [] 0
  described (some infos) = row_columns to_string infos 0

  columns-described :
      (table_id : ℕ) (converter : EventConverter) (row : List (Option V))
      → extract_column_values to_string row (columns_of table_id converter)
        ≡ described (TableMap.get_columns table_id converter.table_map) row
  unfolding Converter.get_columns
  columns-described table_id converter row =
      extract_column_values-row_columns to_string (columns_of table_id converter) row
      ∙ by_case (TableMap.get_columns table_id converter.table_map)
    where
      by_case :
          (o : Option (List ColumnInfo))
          → row_columns to_string (elim o [ none ↦ [] | some cols ↦ cols ]) 0 row ≡ described o row
      by_case none = refl
      by_case (some cols) = refl

  -- For a table that the table map knows, and while the receiver lives, a row event reports no error
  -- and sends one event for each row, in order: an inserted row as an after-image, a deleted one as a
  -- before-image, an updated one as both, where the after-image marks the columns that are new or
  -- whose values differ. The columns are the cells of the row, with the names, types and keys of the
  -- columns that the table map knows. Each event has the names of the table, the file given, the
  -- position behind the event, and the server and time of its header.
  pub process_and_send-rows :
      (header : EventHeader) (table_id : ℕ) (converter : EventConverter) (file schema table : Text)
      (gtid : Option Text) (tx : Channel)
      → TableMap.get table_id converter.table_map ≡ some (schema, table)
      → ((n : ℕ) → tx.open_at n ≡ true)
      → let columns = described (TableMap.get_columns table_id converter.table_map) in
        ((rows : List (List (Option V)))
          → let done =
              process_and_send to_string header
                (BinlogEvent.write_rows table_id rows)
                converter
                file
                gtid
                tx in
            (done.0 ≡ ok tt)
            × (done.2.sent
                ≡ tx.sent
                  ++ map (λ row. ok (inserted header file gtid schema table (columns row))) rows))
        × ((rows : List (List (Option V)))
            → let done =
                process_and_send to_string header
                  (BinlogEvent.delete_rows table_id rows)
                  converter
                  file
                  gtid
                  tx in
              (done.0 ≡ ok tt)
              × (done.2.sent
                  ≡ tx.sent
                    ++ map (λ row. ok (deleted header file gtid schema table (columns row))) rows))
        × ((rows : List (List (Option V) × List (Option V)))
            → let done =
                process_and_send to_string header
                  (BinlogEvent.update_rows table_id rows)
                  converter
                  file
                  gtid
                  tx in
              (done.0 ≡ ok tt)
              × (done.2.sent
                  ≡ tx.sent
                    ++ map
                        (λ row.
                          ok
                            (updated header file gtid schema table (columns row.0) (columns row.1)))
                        rows))
  unfolding process_and_send
  process_and_send-rows header table_id converter file schema table gtid tx known alive = (
    λ rows.
        let (good, sent) =
          send_row_events-sent to_string header file EventType.insert table_id rows converter gtid
            tx alive in
        (
          good,
          sent
              ∙ ap (λ f. tx.sent ++ map f rows)
                  (fun_ext λ row.
                    row_message-insert header file gtid table_id converter schema table known _
                    ∙ ap (λ t. ok (inserted header file gtid schema table t))
                        (columns-described table_id converter row)),
        ),
    λ rows.
        let (good, sent) =
          send_row_events-sent to_string header file EventType.delete table_id rows converter gtid
            tx alive in
        (
          good,
          sent
              ∙ ap (λ f. tx.sent ++ map f rows)
                  (fun_ext λ row.
                    row_message-delete header file gtid table_id converter schema table known _
                    ∙ ap (λ t. ok (deleted header file gtid schema table t))
                        (columns-described table_id converter row)),
        ),
    λ rows.
        let (good, sent) =
          send_update_events-sent to_string header file table_id rows converter gtid tx alive in
        (
          good,
          sent
              ∙ ap (λ f. tx.sent ++ map f rows)
                  (fun_ext λ row.
                    row_message-update header file gtid table_id converter schema table known _ _
                    ∙ ap₂ (λ t u. ok (updated header file gtid schema table t u))
                        (columns-described table_id converter row.0)
                        (columns-described table_id converter row.1)),
        ),
  )

  -- For a table that the table map does not know, and while the receiver lives, a row event reports no
  -- error either, and sends the error of the unknown table once for each row.
  pub process_and_send-unknown :
      (header : EventHeader) (table_id : ℕ) (converter : EventConverter) (file : Text)
      (gtid : Option Text) (tx : Channel)
      → TableMap.get table_id converter.table_map ≡ none
      → ((n : ℕ) → tx.open_at n ≡ true)
      → ((rows : List (List (Option V)))
          → let done =
              process_and_send to_string header
                (BinlogEvent.write_rows table_id rows)
                converter
                file
                gtid
                tx in
            (done.0 ≡ ok tt) × (done.2.sent ≡ tx.sent ++ map (λ row. err (unknown table_id)) rows))
        × ((rows : List (List (Option V)))
            → let done =
                process_and_send to_string header
                  (BinlogEvent.delete_rows table_id rows)
                  converter
                  file
                  gtid
                  tx in
              (done.0 ≡ ok tt)
              × (done.2.sent ≡ tx.sent ++ map (λ row. err (unknown table_id)) rows))
        × ((rows : List (List (Option V) × List (Option V)))
            → let done =
                process_and_send to_string header
                  (BinlogEvent.update_rows table_id rows)
                  converter
                  file
                  gtid
                  tx in
              (done.0 ≡ ok tt)
              × (done.2.sent ≡ tx.sent ++ map (λ row. err (unknown table_id)) rows))
  unfolding process_and_send
  process_and_send-unknown header table_id converter file gtid tx lacking alive = (
    λ rows.
        let (good, sent) =
          send_row_events-sent to_string header file EventType.insert table_id rows converter gtid
            tx alive in
        (
          good,
          sent
              ∙ ap (λ f. tx.sent ++ map f rows)
                  (fun_ext λ row.
                    row_message-unknown header file gtid table_id converter lacking EventType.insert
                      _),
        ),
    λ rows.
        let (good, sent) =
          send_row_events-sent to_string header file EventType.delete table_id rows converter gtid
            tx alive in
        (
          good,
          sent
              ∙ ap (λ f. tx.sent ++ map f rows)
                  (fun_ext λ row.
                    row_message-unknown header file gtid table_id converter lacking EventType.delete
                      _),
        ),
    λ rows.
        let (good, sent) =
          send_update_events-sent to_string header file table_id rows converter gtid tx alive in
        (
          good,
          sent
              ∙ ap (λ f. tx.sent ++ map f rows)
                  (fun_ext
                    λ row. update_message-unknown header file gtid table_id converter lacking _ _),
        ),
  )
