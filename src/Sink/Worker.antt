-- ===== src/Sink/Worker.antt =====
-- crates/canal-sink/src/sink.rs, `ensure_worker`: the task that serves the connectors, one request of
-- the queue after the other.
use canal_rust.Prelude.{ℕ, List, [], ◌∷◌, ◌++◌, length}
use canal_rust.Prelude.Bytes.{Text}
use canal_rust.Common.CanalError.{CanalResult, ok, err}
use canal_rust.Common.Event.{CanalEvent}
use canal_rust.Metrics.{CanalMetrics, init_metrics, inc_dispatched, inc_dispatch_errors}
use canal_rust.Sink.{DefaultEventSink, DispatchRequest}

-- The connectors that the task has cloned, its calls of their `dispatch`, and what it adds to
-- the counters
pub record Worker : Type 0 where
  pub connectors : List Text
  pub calls : List (Text × List CanalEvent)
  pub metrics : CanalMetrics

-- The task as it starts, at the first batch that is kept
unfoldable pub ensure_worker : {R : Type 0} → DefaultEventSink R → Worker
ensure_worker s = record { connectors = s.connectors; calls = []; metrics = init_metrics }

unfoldable pub counted : CanalResult (Unit {0}) → DispatchRequest → Worker → Worker
counted (ok u) req w = record w { metrics = inc_dispatched req.filtered_count w.metrics }
counted (err e) req w = record w { metrics = inc_dispatch_errors 1 w.metrics }

-- `outcome` says what the `n`-th call of a connector returns.
module _ (outcome : ℕ → CanalResult (Unit {0})) where
  unfoldable pub dispatch : Text → DispatchRequest → Worker → Worker
  dispatch conn req w =
      counted (outcome (length w.calls)) req
        (record w { calls = w.calls ++ (conn, req.events) ∷ [] })

  -- `for conn in &connectors`
  unfoldable pub fan_out : List Text → DispatchRequest → Worker → Worker
  fan_out [] req w = w
  fan_out (conn ∷ connectors) req w = fan_out connectors req (dispatch conn req w)

  -- `while let Some(req) = rx.recv().await`
  unfoldable pub work : List DispatchRequest → Worker → Worker
  work [] w = w
  work (req ∷ requests) w = work requests (fan_out w.connectors req w)
