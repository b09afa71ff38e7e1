-- ===== src/Sink.antt =====
-- crates/canal-sink/src/sink.rs: `DefaultEventSink`. The worker that serves the connectors takes the
-- requests in the order of the queue; the connectors are known by name.
pub mod Pipeline
pub mod Worker
pub mod Dispatch
pub mod Dispatched
pub mod Counters
mod Tests
use canal_rust.Prelude.{
  ℕ, ◌+◌, ◌-◌, Option, none, some, Bool, true, List, [], ◌∷◌, ◌++◌, filter, length, is_empty,
}
use canal_rust.Prelude.Bytes.{Text}
use canal_rust.Prelude.Int.{ℤ, pos}
use canal_rust.Common.CanalError.{CanalResult, Result, ok, err}
use canal_rust.Common.Event.{CanalEvent}
use canal_rust.Common.Events
use canal_rust.Common.Events.{Events}
use canal_rust.Common.Regex.{RegexLib}
use canal_rust.Filter.{EventFilter, matches}
use canal_rust.Store.{MemoryEventStore, put_batch}
use canal_rust.Metrics.{CanalMetrics, init_metrics, inc_parsed, inc_filtered}

pub record DispatchRequest : Type 0 where
  pub events : List CanalEvent
  pub filtered_count : ℕ

pub record DefaultEventSink (Regex : Type 0) : Type 0 where
  pub store : MemoryEventStore
  pub event_filter : EventFilter Regex
  pub connectors : List Text
  pub metrics : CanalMetrics
  -- what was sent to the worker
  pub requests : List DispatchRequest

-- `recorder` is what `CanalMetrics::new()` finds: the counters of the whole process.
unfoldable pub new :
    {R : Type 0} → CanalMetrics → MemoryEventStore → EventFilter R → List Text → DefaultEventSink R
new recorder store event_filter connectors = record {
  store = store;
  event_filter = event_filter;
  connectors = connectors;
  metrics = recorder;
  requests = [];
}

unfoldable pub with_metrics :
    {R : Type 0} → MemoryEventStore → EventFilter R → List Text → CanalMetrics → DefaultEventSink R
with_metrics store event_filter connectors metrics = record {
  store = store;
  event_filter = event_filter;
  connectors = connectors;
  metrics = metrics;
  requests = [];
}

unfoldable pub store_only :
    {R : Type 0} → CanalMetrics → MemoryEventStore → EventFilter R → DefaultEventSink R
store_only recorder store event_filter = record {
  store = store;
  event_filter = event_filter;
  connectors = [];
  metrics = recorder;
  requests = [];
}

unfoldable pub add_connector : {R : Type 0} → Text → DefaultEventSink R → DefaultEventSink R
add_connector connector s = record s { connectors = s.connectors ++ connector ∷ [] }

-- Phase 3: nothing without connectors, else a request for the worker
abbrev pub enqueue : List Text → DispatchRequest → List DispatchRequest → List DispatchRequest
enqueue [] req requests = requests
enqueue (connector ∷ connectors) req requests = requests ++ req ∷ []

-- Behind the filter
unfoldable pub keep :
    {R : Type 0} → List CanalEvent → DefaultEventSink R → CanalResult Events × DefaultEventSink R
keep [] s = (ok (Events.new (pos 0)), s)
keep (e ∷ es) s =
    let stored = put_batch (e ∷ es) s.store in
    elim stored.0 [
      | err failure ↦ (err failure, record s { store = stored.1 })
      | ok batch_id ↦ (
        ok (Events.new batch_id),
        record s {
          store = stored.1;
          requests =
              enqueue s.connectors (record { events = e ∷ es; filtered_count = length (e ∷ es) })
                s.requests;
        },
      )
    ]

module _ (lib : RegexLib) where
  open lib use {Regex}

  unfoldable pub sink :
      List CanalEvent → DefaultEventSink Regex → CanalResult Events × DefaultEventSink Regex
  unfolding keep
  sink events s =
      let filtered = filter (matches lib s.event_filter) events in
      keep filtered (record s {
        metrics =
            inc_filtered (length events - length filtered) (inc_parsed (length events) s.metrics);
      })
