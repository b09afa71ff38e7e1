-- ===== src/Binlog/Sends.antt =====
-- How `send_row_events`, `send_update_events` and `process_and_send` of
-- crates/canal-binlog/src/connector.rs use the channel.
use canal_rust.Prelude.{ℕ, ◌+◌, ◌≡◌, refl, sym, ap, ◌∙◌, Option, true, List, [], ◌∷◌, ◌++◌, map}
use mathlib.Core.List.{append-nil, append_assoc}
use canal_rust.Prelude.Bytes.{Text}
use canal_rust.Common.CanalError.{CanalResult, ok}
use canal_rust.Common.Event.{EventType, CanalEvent}
use canal_rust.Binlog.Converter.{EventConverter, handle_row_event, handle_update_row_event}
use canal_rust.Binlog.ColumnSerde.{extract_column_values}
use canal_rust.Binlog.Connector.{
  Channel, EventHeader, BinlogEvent, row_message, columns_of, send_row_events, send_update_events,
  process_and_send,
}
use canal_rust.Binlog.Messages.{send-open}

module _ {V : Type 0} (to_string : V → Text) where
  -- The message of one row of an INSERT or DELETE event.
  abbrev pub message_of :
      EventHeader
      → Text
      → EventType
      → ℕ
      → EventConverter
      → Option Text
      → List (Option V)
      → CanalResult CanalEvent
  message_of header file entry_type table_id converter gtid row =
      row_message header file entry_type gtid (
        handle_row_event table_id entry_type
          (extract_column_values to_string row (columns_of table_id converter)) converter)

  abbrev pub update_message_of :
      EventHeader
      → Text
      → ℕ
      → EventConverter
      → Option Text
      → List (Option V) × List (Option V)
      → CanalResult CanalEvent
  update_message_of header file table_id converter gtid row =
      row_message header file EventType.update gtid (
        handle_update_row_event table_id
          (extract_column_values to_string row.0 (columns_of table_id converter))
          (extract_column_values to_string row.1 (columns_of table_id converter)) converter)

  -- While the receiver lives, a row event sends exactly one message for each of its rows, in their
  -- order, errors included, and never fails itself.
  pub send_row_events-sent :
      (header : EventHeader) (file : Text) (entry_type : EventType) (table_id : ℕ)
      (rows : List (List (Option V))) (converter : EventConverter) (gtid : Option Text)
      (tx : Channel)
      → ((n : ℕ) → tx.open_at n ≡ true)
      → ((send_row_events to_string header file entry_type table_id rows converter gtid tx).0
          ≡ ok tt)
        × ((send_row_events to_string header file entry_type table_id rows converter gtid tx).1.sent
            ≡ tx.sent ++ map (message_of header file entry_type table_id converter gtid) rows)
  unfolding send_row_events
  send_row_events-sent header file entry_type table_id [] converter gtid tx h =
      (refl, sym (append-nil tx.sent))
  send_row_events-sent header file entry_type table_id (row ∷ rows) converter gtid tx h =
      let m = message_of header file entry_type table_id converter gtid row in
      let ih =
        send_row_events-sent header file entry_type table_id rows converter gtid
          (record tx { sent = tx.sent ++ m ∷ []; attempts = tx.attempts + 1 }) h in
      let go : Channel → CanalResult (Unit {0}) × Channel =
        send_row_events to_string header file entry_type table_id rows converter gtid in
      (
        ap (λ t. (go t).0) (send-open m tx h) ∙ ih.0,
        ap (λ t. (go t).1.sent) (send-open m tx h) ∙ ih.1 ∙ append_assoc tx.sent (m ∷ []) _,
      )

  pub send_update_events-sent :
      (header : EventHeader) (file : Text) (table_id : ℕ)
      (rows : List (List (Option V) × List (Option V))) (converter : EventConverter)
      (gtid : Option Text) (tx : Channel)
      → ((n : ℕ) → tx.open_at n ≡ true)
      → ((send_update_events to_string header file table_id rows converter gtid tx).0 ≡ ok tt)
        × ((send_update_events to_string header file table_id rows converter gtid tx).1.sent
            ≡ tx.sent ++ map (update_message_of header file table_id converter gtid) rows)
  unfolding send_update_events
  send_update_events-sent header file table_id [] converter gtid tx h =
      (refl, sym (append-nil tx.sent))
  send_update_events-sent header file table_id ((b, a) ∷ rows) converter gtid tx h =
      let m = update_message_of header file table_id converter gtid (b, a) in
      let ih =
        send_update_events-sent header file table_id rows converter gtid
          (record tx { sent = tx.sent ++ m ∷ []; attempts = tx.attempts + 1 }) h in
      let go : Channel → CanalResult (Unit {0}) × Channel =
        send_update_events to_string header file table_id rows converter gtid in
      (
        ap (λ t. (go t).0) (send-open m tx h) ∙ ih.0,
        ap (λ t. (go t).1.sent) (send-open m tx h) ∙ ih.1 ∙ append_assoc tx.sent (m ∷ []) _,
      )

  send_row_events_ok :
      (header : EventHeader) (file : Text) (entry_type : EventType) (table_id : ℕ)
      (rows : List (List (Option V))) (converter : EventConverter) (gtid : Option Text)
      (tx : Channel)
      → (send_row_events to_string header file entry_type table_id rows converter gtid tx).0 ≡ ok tt
  unfolding send_row_events
  send_row_events_ok header file entry_type table_id [] converter gtid tx = refl
  send_row_events_ok header file entry_type table_id (row ∷ rows) converter gtid tx =
      send_row_events_ok header file entry_type table_id rows converter gtid _

  send_update_events_ok :
      (header : EventHeader) (file : Text) (table_id : ℕ)
      (rows : List (List (Option V) × List (Option V))) (converter : EventConverter)
      (gtid : Option Text) (tx : Channel)
      → (send_update_events to_string header file table_id rows converter gtid tx).0 ≡ ok tt
  unfolding send_update_events
  send_update_events_ok header file table_id [] converter gtid tx = refl
  send_update_events_ok header file table_id ((b, a) ∷ rows) converter gtid tx =
      send_update_events_ok header file table_id rows converter gtid _

  -- `process_and_send` reports no error, whatever the event, the converter and the channel.
  pub process_and_send_ok :
      (header : EventHeader) (event : BinlogEvent V) (converter : EventConverter) (file : Text)
      (gtid : Option Text) (tx : Channel)
      → (process_and_send to_string header event converter file gtid tx).0 ≡ ok tt
  unfolding process_and_send
  process_and_send_ok header (BinlogEvent.write_rows table_id rows) converter file gtid tx =
      send_row_events_ok header file EventType.insert table_id rows converter gtid tx
  process_and_send_ok header (BinlogEvent.update_rows table_id rows) converter file gtid tx =
      send_update_events_ok header file table_id rows converter gtid tx
  process_and_send_ok header (BinlogEvent.delete_rows table_id rows) converter file gtid tx =
      send_row_events_ok header file EventType.delete table_id rows converter gtid tx
  process_and_send_ok header _ converter file gtid tx = refl
