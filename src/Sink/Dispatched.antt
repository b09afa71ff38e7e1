-- ===== src/Sink/Dispatched.antt =====
-- What the worker of crates/canal-sink/src/sink.rs counts.
use canal_rust.Prelude.{
  ℕ, ◌+◌, ◌*◌, ◌≤◌, ◌≡◌, refl, ap, ◌∙◌, List, [], ◌∷◌, ◌++◌, arith, filter, length, Bool,
}
use native.Mathlib.Nat.{mul-add}
use canal_rust.Prelude.Bytes.{Text}
use canal_rust.Common.CanalError.{CanalResult, ok}
use canal_rust.Common.Event.{CanalEvent}
use canal_rust.Metrics.{inc_dispatched}
use canal_rust.Sink.{DispatchRequest}
use canal_rust.Sink.Worker.{Worker, counted, dispatch, fan_out, work}

pub length-filter :
    (p : CanalEvent → Bool) (xs : List CanalEvent) → length (filter p xs) ≤ length xs
length-filter p [] = omega arith
length-filter p (x ∷ xs) = ground (arith, length-filter p xs)

-- The events of the requests
abbrev pub queued : List DispatchRequest → ℕ
queued [] = 0
queued (req ∷ requests) = req.filtered_count + queued requests

pub queued-snoc :
    (requests : List DispatchRequest) (req : DispatchRequest)
    → queued (requests ++ req ∷ []) ≡ queued requests + req.filtered_count
queued-snoc [] req = omega arith
queued-snoc (r ∷ requests) req = omega (arith, queued-snoc requests req)

module _ (outcome : ℕ → CanalResult (Unit {0})) (succeeds : (n : ℕ) → outcome n ≡ ok tt) where
  dispatch-ok :
      (conn : Text) (req : DispatchRequest) (w : Worker)
      → dispatch outcome conn req w ≡ record w {
        calls = w.calls ++ (conn, req.events) ∷ [];
        metrics = inc_dispatched req.filtered_count w.metrics;
      }
  unfolding dispatch counted
  dispatch-ok conn req w =
      ap (λ r. counted r req (record w { calls = w.calls ++ (conn, req.events) ∷ [] }))
        (succeeds (length w.calls))

  fan_out-metrics :
      (connectors : List Text) (req : DispatchRequest) (w : Worker)
      → ((fan_out outcome connectors req w).metrics.dispatched
          ≡ w.metrics.dispatched + length connectors * req.filtered_count)
        × ((fan_out outcome connectors req w).metrics.dispatch_errors ≡ w.metrics.dispatch_errors)
        × ((fan_out outcome connectors req w).connectors ≡ w.connectors)
  unfolding fan_out
  fan_out-metrics [] req w = (omega arith, refl, refl)
  fan_out-metrics (conn ∷ connectors) req w =
      let (more, errors, names) = fan_out-metrics connectors req (dispatch outcome conn req w) in
      let one = dispatch-ok conn req w in
      (
        omega (arith, more, ap (λ v. v.metrics.dispatched) one),
        errors ∙ ap (λ v. v.metrics.dispatch_errors) one,
        names ∙ ap (λ v. v.connectors) one,
      )

  pub work-metrics :
      (requests : List DispatchRequest) (w : Worker)
      → ((work outcome requests w).metrics.dispatched
          ≡ w.metrics.dispatched + length w.connectors * queued requests)
        × ((work outcome requests w).metrics.dispatch_errors ≡ w.metrics.dispatch_errors)
  unfolding work
  work-metrics [] w = (omega arith, refl)
  work-metrics (req ∷ requests) w =
      let (one, errors, names) = fan_out-metrics w.connectors req w in
      let (more, rest) = work-metrics requests (fan_out outcome w.connectors req w) in
      let same = ap (λ (c : List Text). length c * queued requests) names in
      (
        omega (
          arith,
          more,
          one,
          same,
          mul-add (length w.connectors) req.filtered_count (queued requests),
        ),
        rest ∙ errors,
      )
