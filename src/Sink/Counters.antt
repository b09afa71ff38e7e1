-- ===== src/Sink/Counters.antt =====
-- What the counters of crates/canal-prometheus/src/metrics_server.rs count when the sink and the
-- worker of crates/canal-sink/src/sink.rs have run.
use canal_rust.Prelude.{
  ℕ, ◌+◌, ◌-◌, ◌*◌, ◌≡◌, refl, sym, ap, ◌∙◌, List, [], ◌∷◌, arith, filter, length, length-append,
  filter-append,
}
use mathlib.Core.Path.{subst}
use native.Mathlib.Nat.{mul-add}
use canal_rust.Prelude.Bytes.{Text}
use canal_rust.Common.CanalError.{CanalResult, ok}
use canal_rust.Common.Event.{CanalEvent}
use canal_rust.Common.Regex.{RegexLib}
use canal_rust.Filter.{matches}
use canal_rust.Store.{put_batch}
use canal_rust.Store.History.{flatten}
use canal_rust.Metrics.{inc_parsed, inc_filtered}
use canal_rust.Sink.{DefaultEventSink, DispatchRequest, keep, sink, enqueue}
use canal_rust.Sink.Pipeline.{sink_all, passing, keep-event_filter}
use canal_rust.Sink.Worker.{ensure_worker, work}
use canal_rust.Sink.Dispatched.{length-filter, queued, queued-snoc, work-metrics}

module _ (lib : RegexLib) where
  open lib use {Regex}

  -- What a call of the sink with these events changes
  record Counts (events : List CanalEvent) (s s' : DefaultEventSink Regex) : Type 0 where
    connectors : s'.connectors ≡ s.connectors
    event_filter : s'.event_filter ≡ s.event_filter
    parsed : s'.metrics.parsed ≡ s.metrics.parsed + length events
    filtered :
        s'.metrics.filtered + length (passing lib s events) ≡ s.metrics.filtered + length events
    requests :
        length s.connectors * queued s'.requests
        ≡ length s.connectors * (queued s.requests + length (passing lib s events))

  enqueue-queued :
      (connectors : List Text) (req : DispatchRequest) (requests : List DispatchRequest)
      → length connectors * queued (enqueue connectors req requests)
        ≡ length connectors * (queued requests + req.filtered_count)
  enqueue-queued [] req requests = omega arith
  enqueue-queued (c ∷ cs) req requests = ap (λ q. length (c ∷ cs) * q) (queued-snoc requests req)

  keep-counted :
      (events : List CanalEvent) (s : DefaultEventSink Regex)
      → ((keep events s).1.connectors ≡ s.connectors)
        × ((keep events s).1.metrics ≡ s.metrics)
        × (length s.connectors * queued (keep events s).1.requests
            ≡ length s.connectors * (queued s.requests + length events))
  unfolding keep put_batch
  keep-counted [] s = (refl, refl, omega arith)
  keep-counted (e ∷ es) s = (refl, refl, enqueue-queued s.connectors _ s.requests)

  sink-Counts :
      (events : List CanalEvent) (s : DefaultEventSink Regex)
      → Counts events s (sink lib events s).1
  unfolding sink
  sink-Counts events s =
      let kept = passing lib s events in
      let fewer = length-filter (matches lib s.event_filter) events in
      let (names, same, queue) = keep-counted kept (record s {
        metrics = inc_filtered (length events - length kept) (inc_parsed (length events) s.metrics);
      }) in
      record {
        connectors = names;
        event_filter = keep-event_filter lib kept _;
        parsed = ap (λ m. m.parsed) same;
        filtered = omega (arith, fewer, ap (λ m. m.filtered) same);
        requests = queue;
      }

  sink_all-Counts :
      (batches : List (List CanalEvent)) (s : DefaultEventSink Regex)
      → Counts (flatten batches) s (sink_all lib batches s)
  unfolding sink_all
  sink_all-Counts [] s = record {
    connectors = refl;
    event_filter = refl;
    parsed = omega arith;
    filtered = refl;
    requests = omega arith;
  }
  sink_all-Counts (events ∷ batches) s =
      let s' = (sink lib events s).1 in
      let here = sink-Counts events s in
      let rest = sink_all-Counts batches s' in
      let all = length-append events (flatten batches) in
      let shown : length (passing lib s (flatten (events ∷ batches)))
          ≡ length (passing lib s events) + length (passing lib s' (flatten batches)) =
        ap length (filter-append (matches lib s.event_filter) events (flatten batches))
        ∙ (length-append (passing lib s events) _
            ∙ ap
                (λ f.
                  length (passing lib s events) + length (filter (matches lib f) (flatten batches)))
                (sym here.event_filter)) in
      let n = length s.connectors in
      let k = length (passing lib s events) in
      let k' = length (passing lib s' (flatten batches)) in
      let q = queued s.requests in
      let later : n * queued (sink_all lib batches s').requests ≡ n * (queued s'.requests + k') =
        subst
          (λ (c : List Text).
            length c * queued (sink_all lib batches s').requests
            ≡ length c * (queued s'.requests + k'))
          here.connectors rest.requests in
      record {
        connectors = rest.connectors ∙ here.connectors;
        event_filter = rest.event_filter ∙ here.event_filter;
        parsed = omega (arith, rest.parsed, here.parsed, all);
        filtered = omega (arith, rest.filtered, here.filtered, all, shown);
        requests = omega (
          arith,
          later,
          here.requests,
          ap (λ x. n * (q + x)) shown,
          mul-add n (queued s'.requests) k',
          mul-add n q k,
          mul-add n k k',
          mul-add n q (k + k'),
        );
      }

  -- A sink without queued requests, any batches, and connectors whose calls all succeed: when the
  -- sink has taken the batches and the worker has served its queue, the events of the batches are
  -- those counted as parsed, each of them is either counted as filtered or passes the filter, the
  -- events that pass are counted as dispatched once for each connector, and no error is counted.
  pub counted-sink_all :
      (outcome : ℕ → CanalResult (Unit {0})) (batches : List (List CanalEvent))
      (s : DefaultEventSink Regex)
      → s.requests ≡ []
      → ((n : ℕ) → outcome n ≡ ok tt)
      → let s' = sink_all lib batches s in
        let w = work outcome s'.requests (ensure_worker s) in
        let passed = length (passing lib s (flatten batches)) in
        (s'.metrics.parsed ≡ s.metrics.parsed + length (flatten batches))
        × (s'.metrics.filtered + passed ≡ s.metrics.filtered + length (flatten batches))
        × (w.metrics.dispatched ≡ length s.connectors * passed)
        × (w.metrics.dispatch_errors ≡ 0)
  unfolding ensure_worker
  counted-sink_all outcome batches s fresh succeeds =
      let counts = sink_all-Counts batches s in
      let (served, errors) =
        work-metrics outcome succeeds (sink_all lib batches s).requests (ensure_worker s) in
      let empty = ap queued fresh in
      (
        counts.parsed,
        counts.filtered,
        omega (
          arith,
          served,
          counts.requests,
          ap (λ q. length s.connectors * (q + length (passing lib s (flatten batches)))) empty,
        ),
        errors,
      )
