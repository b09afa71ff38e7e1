-- ===== src/Sink/Tests.antt =====
-- A concrete sink for crates/canal-sink/src/sink.rs.
use canal_rust.Prelude.{
  length, ◌+◌, ◌*◌, ℕ, map, filter, ◌==◌, if◌then◌else◌, ◌≡◌, refl, none, some, List, [], ◌∷◌,
  arith,
}
use canal_rust.Prelude.Bytes.{Text, bytes, text_eq, parse_u64}
use canal_rust.Prelude.Int.{pos}
use canal_rust.Common.CanalError.{CanalError, CanalResult, ok, err}
use canal_rust.Common.Event.{EventType, CanalEvent}
use canal_rust.Common.Events.{event_position}
use canal_rust.Common.LogPosition
use canal_rust.Common.LogPosition.{binlog_suffix, key_leb}
use canal_rust.Common.Regex.{RegexLib}
use canal_rust.Filter.{EventFilter, matches}
use canal_rust.Store
use canal_rust.Metrics.{init_metrics}
use canal_rust.Store.{put_batch}
use canal_rust.Store.Sorted.{IsSorted, behind}
use canal_rust.Store.History.{flatten, Reaches}
use canal_rust.Store.Invariant.{empty, new-IsValid}
use canal_rust.Sink.{DefaultEventSink, sink, keep}
use canal_rust.Sink.Counters.{counted-sink_all}
use canal_rust.Sink.Worker.{ensure_worker, work}
use canal_rust.Sink.Dispatch.{received_by, nonempty, work-sink_all}
use canal_rust.Sink.Pipeline.{sink_all, passing, sink_all-no_gap}

-- Patterns that match the one name that they are.
abbrev lib : RegexLib
lib = record {
  Regex = Text;
  Error = Text;
  build = λ limit t. ok t;
  compile = λ t. some t;
  is_match = text_eq;
  syntax = λ t. t;
  display = λ t. t;
}

abbrev event : Text → ℕ → CanalEvent
event table offset = record {
  journal_name = bytes "b.1";
  position = offset;
  server_id = 1;
  execute_time = pos 0;
  entry_type = EventType.insert;
  schema_name = bytes "db";
  table_name = table;
  row_change = none;
  ddl_sql = none;
  gtid = none;
  raw_bytes = [];
}

abbrev users : EventFilter Text
users = record { include = bytes "db.users"; exclude = none }

abbrev started : DefaultEventSink Text
started = record {
  store = empty 2;
  event_filter = users;
  connectors = bytes "kafka" ∷ [];
  metrics = init_metrics;
  requests = [];
}

abbrev batches : List (List CanalEvent)
batches =
    (event (bytes "users") 4 ∷ event (bytes "other") 6 ∷ [])
    ∷ (event (bytes "users") 8 ∷ event (bytes "users") 9 ∷ [])
    ∷ []

program : Unit {0}
unfolding bytes text_eq parse_u64 binlog_suffix key_leb LogPosition.new event_position matches sink
    keep sink_all put_batch Store.drain Store.split_off Store.drained Store.skipped
    Store.raise_watermark Store.raise_to Store.drain_count
program = tt

passing-IsSorted : IsSorted (passing lib started (flatten batches))
unfolding program
passing-IsSorted = ((refl, (refl, tt)), ((refl, tt), (tt, tt)))

at_watermark : Reaches (sink_all lib batches started).store.evicted_watermark (1, 4)
unfolding program
at_watermark = refl

sink_all-no_gap_example :
    behind (1, 4) (sink_all lib batches started).store.buffer
    ≡ behind (1, 4) (passing lib started (flatten batches))
sink_all-no_gap_example =
    sink_all-no_gap lib batches 2 started (1, 4) (new-IsValid 2 (omega arith)).0 passing-IsSorted
      at_watermark

-- The first call of a connector fails, the others do not.
abbrev outcome : ℕ → CanalResult (Unit {0})
outcome n = if n == 0 then err (CanalError.internal []) else ok tt

abbrev two_connectors : DefaultEventSink Text
two_connectors = record started { connectors = bytes "rocket" ∷ bytes "kafka" ∷ [] }

kafka_once : filter (text_eq (bytes "kafka")) two_connectors.connectors ≡ bytes "kafka" ∷ []
unfolding bytes text_eq
kafka_once = refl

work-sink_all_example :
    received_by
      (bytes "kafka")
      (work outcome
        (sink_all lib batches two_connectors).requests
        (ensure_worker two_connectors)).calls
    ≡ nonempty (map (passing lib two_connectors) batches)
work-sink_all_example =
    work-sink_all lib outcome (bytes "kafka") batches two_connectors refl kafka_once

counted-sink_all_example :
    let s' = sink_all lib batches two_connectors in
    let w = work (λ n. ok tt) s'.requests (ensure_worker two_connectors) in
    let passed = length (passing lib two_connectors (flatten batches)) in
    (s'.metrics.parsed ≡ two_connectors.metrics.parsed + length (flatten batches))
    × (s'.metrics.filtered + passed ≡ two_connectors.metrics.filtered + length (flatten batches))
    × (w.metrics.dispatched ≡ length two_connectors.connectors * passed)
    × (w.metrics.dispatch_errors ≡ 0)
counted-sink_all_example = counted-sink_all lib (λ n. ok tt) batches two_connectors refl (λ n. refl)
