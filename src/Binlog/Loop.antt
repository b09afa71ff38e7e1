-- ===== src/Binlog/Loop.antt =====
-- The replication loop of crates/canal-binlog/src/connector.rs over a whole stream.
use canal_rust.Prelude.{◌≡◌, refl, none, Bool, true, false, List, [], ◌∷◌, if◌then◌else◌}
use canal_rust.Prelude.Bytes.{Text}
use canal_rust.Binlog.Connector.{EventHeader, BinlogEvent}
use canal_rust.Binlog.Replication.{
  Replication, NextOutcome, item, failed, panicked, note_event, on_result, on_item, round, run,
}
use canal_rust.Binlog.Sends.{process_and_send_ok}

-- The livelock guard has counted nothing.
pub record IsQuiet (r : Replication) : Type 0 where
  pub no_errors : r.consecutive_errors ≡ 0
  pub no_error_pos : r.last_error_pos ≡ none

module _ {V : Type 0} (to_string : V → Text) where
  on_item-IsQuiet :
      (header : EventHeader) (event : BinlogEvent V) (r : Replication)
      → IsQuiet (on_item to_string header event r).1
  unfolding on_item on_result
  on_item-IsQuiet header event r =
      let r' = note_event header event r in
      rw
        (process_and_send_ok to_string header event r'.converter r'.current_binlog_file
          r'.current_gtid r'.tx)
        (record { no_errors = refl; no_error_pos = refl })

  round-IsQuiet :
      (cancelled : Bool) (outcome : NextOutcome V) (r : Replication)
      → IsQuiet r
      → IsQuiet (round to_string cancelled outcome r).1
  unfolding round
  round-IsQuiet cancelled (panicked msg) r q = record {
    no_errors = q.no_errors;
    no_error_pos = q.no_error_pos;
  }
  round-IsQuiet true (item header event) r q = q
  round-IsQuiet true (failed e) r q = q
  round-IsQuiet false (failed e) r q = record {
    no_errors = q.no_errors;
    no_error_pos = q.no_error_pos;
  }
  round-IsQuiet false (item header event) r q = on_item-IsQuiet header event r

  -- From a state in which it has counted nothing, and over any stream, errors, panics and cancellation
  -- included, the guard that is to skip an event after three failed attempts counts no error: rows
  -- that cannot be converted never reach it.
  pub run-IsQuiet :
      (stream : List (Bool × NextOutcome V)) (r : Replication)
      → IsQuiet r
      → IsQuiet (run to_string stream r)
  unfolding run
  run-IsQuiet [] r q = q
  run-IsQuiet ((cancelled, outcome) ∷ stream) r q =
      let next = (round to_string cancelled outcome r).1 in
      branch (round to_string cancelled outcome r).0
        (run-IsQuiet stream next (round-IsQuiet cancelled outcome r q))
        (round-IsQuiet cancelled outcome r q)
    where
      next : Replication
      next = (round to_string cancelled outcome r).1

      branch :
          (b : Bool)
          → IsQuiet (run to_string stream next)
          → IsQuiet next
          → IsQuiet (if b then run to_string stream next else next)
      branch true h k = h
      branch false h k = k
