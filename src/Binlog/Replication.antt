-- ===== src/Binlog/Replication.antt =====
-- crates/canal-binlog/src/connector.rs, `run_replication`: the replication loop.
use canal_rust.Prelude.{
  ℕ, ◌+◌, Option, none, some, Bool, true, false, List, [], ◌∷◌, ◌++◌, leb, ◌==◌, ◌&&◌,
  if◌then◌else◌,
}
use canal_rust.Prelude.Bytes.{Text, bytes, decimal, text_eq}
use canal_rust.Common.CanalError.{
  CanalError, Result, CanalResult, ok, err, protocol, binlog_connection,
}
use canal_rust.Binlog.Converter
use canal_rust.Binlog.Converter.{EventConverter}
use canal_rust.Binlog.Connector.{Channel, blocking_send, EventHeader, BinlogEvent, process_and_send}

abbrev max_consecutive_errors : ℕ
max_consecutive_errors = 3

-- `next_or_panic`: an item of the stream, a decoding error of the stream by its `{:?}` text, or the
-- message of a panic. The end of the stream is the end of the list.
pub data NextOutcome (V : Type 0) : Type 0 where
  item : EventHeader → BinlogEvent V → NextOutcome V
  failed : Text → NextOutcome V
  panicked : Text → NextOutcome V

pub record Replication : Type 0 where
  pub converter : EventConverter
  pub current_binlog_file : Text
  pub current_gtid : Option Text
  pub last_pos : ℕ
  pub consecutive_errors : ℕ
  pub last_error_pos : Option (Text × ℕ)
  pub tx : Channel
  -- the headers that `client.commit` was called with
  pub committed : List EventHeader

unfoldable pub init : Text → Channel → Replication
init start_journal tx = record {
  converter = Converter.new;
  current_binlog_file = start_journal;
  current_gtid = none;
  last_pos = 0;
  consecutive_errors = 0;
  last_error_pos = none;
  tx = tx;
  committed = [];
}

pub panic_error : Text → ℕ → Text → CanalError
panic_error file last_pos msg = protocol (
    bytes "binlog decoder panicked near "
    ++ (file ++ (bytes ":" ++ (decimal last_pos ++ (bytes ": " ++ msg)))))

pub stream_error : Text → CanalError
stream_error e = protocol (bytes "binlog stream error: " ++ e)

-- The header's position, the GTID and the file name, before the event is processed.
unfoldable pub note_event : {V : Type 0} → EventHeader → BinlogEvent V → Replication → Replication
note_event header (BinlogEvent.mysql_gtid g) r = record r {
  last_pos = header.next_event_position;
  current_gtid = some g;
}
note_event header (BinlogEvent.mariadb_gtid g) r = record r {
  last_pos = header.next_event_position;
  current_gtid = some g;
}
note_event header (BinlogEvent.rotate name) r = record r {
  last_pos = header.next_event_position;
  current_binlog_file = name;
}
note_event header _ r = record r { last_pos = header.next_event_position }

same_error_pos : Option (Text × ℕ) → Text → ℕ → Bool
same_error_pos none file p = false
same_error_pos (some (f, q)) file p = text_eq f file && q == p

-- The `Err` arm of `match process_and_send(...)`; `false` breaks the loop.
unfoldable pub on_error : EventHeader → CanalError → Replication → Bool × Replication
unfolding same_error_pos
on_error header e r =
    let p = header.next_event_position in
    let errors =
      if same_error_pos r.last_error_pos r.current_binlog_file p
      then r.consecutive_errors + 1
      else 1 in
    let (delivered, tx) = blocking_send (err e) r.tx in
    if delivered
    then (
      true,
      record r {
        consecutive_errors = if leb max_consecutive_errors errors then 0 else errors;
        last_error_pos =
            if leb max_consecutive_errors errors then none else some (r.current_binlog_file, p);
        tx = tx;
        committed = r.committed ++ header ∷ [];
      },
    )
    else (
      false,
      record r {
        consecutive_errors = errors;
        last_error_pos = some (r.current_binlog_file, p);
        tx = tx;
      },
    )

unfoldable pub on_result : EventHeader → CanalResult (Unit {0}) → Replication → Bool × Replication
on_result header (ok _) r = (
  true,
  record r {
    consecutive_errors = 0;
    last_error_pos = none;
    committed = r.committed ++ header ∷ [];
  },
)
on_result header (err e) r = on_error header e r

module _ {V : Type 0} (to_string : V → Text) where
  unfoldable pub on_item : EventHeader → BinlogEvent V → Replication → Bool × Replication
  unfolding on_result
  on_item header event r =
      let r' = note_event header event r in
      let done =
        process_and_send to_string header event r'.converter r'.current_binlog_file r'.current_gtid
          r'.tx in
      on_result header done.0 (record r' { converter = done.1; tx = done.2 })

  -- One round of the loop: `cancelled` is what `cancel.is_cancelled()` returns.
  unfoldable pub round : Bool → NextOutcome V → Replication → Bool × Replication
  unfolding on_item
  round cancelled (panicked msg) r = (
    false,
    record r {
      tx = (blocking_send (err (panic_error r.current_binlog_file r.last_pos msg)) r.tx).1;
    },
  )
  round true (item header event) r = (false, r)
  round true (failed e) r = (false, r)
  round false (failed e) r =
      let (delivered, tx) = blocking_send (err (stream_error e)) r.tx in
      (delivered, record r { tx = tx })
  round false (item header event) r = on_item header event r

  unfoldable pub run : List (Bool × NextOutcome V) → Replication → Replication
  unfolding round
  run [] r = r
  run ((cancelled, outcome) ∷ stream) r =
      let next = round cancelled outcome r in
      let rest = run stream next.1 in if next.0 then rest else next.1

-- `run_replication`: `client.replicate()` may fail, by the text of its error.
unfoldable pub run_replication :
    {V : Type 0}
    → (V → Text)
    → Text
    → Result (List (Bool × NextOutcome V)) Text
    → Channel
    → Replication
unfolding run init
run_replication to_string start_journal (ok stream) tx =
    run to_string stream (init start_journal tx)
run_replication to_string start_journal (err e) tx = record (init start_journal tx) {
  tx =
      (blocking_send (err (binlog_connection (bytes "failed to start binlog replication: " ++ e)))
        tx).1;
}
