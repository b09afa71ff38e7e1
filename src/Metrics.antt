-- ===== src/Metrics.antt =====
-- crates/canal-prometheus/src/metrics_server.rs: `CanalMetrics` and `MetricsServer`. The recorder of
-- the crate `metrics`, one for the whole process, is the record of its
-- values, as numbers that do not overflow; how they are rendered is a parameter.
pub mod Scrape
use canal_rust.Prelude.{ℕ, ◌+◌, Option, none, some, if◌then◌else◌}
use canal_rust.Prelude.Bytes.{Text}
use canal_rust.Common.CanalError.{Result, ok, err}
use canal_rust.Admin.{unauthorized, check_metrics_auth}

pub record CanalMetrics : Type 0 where
  pub parsed : ℕ
  pub filtered : ℕ
  pub dispatched : ℕ
  pub dispatch_errors : ℕ
  pub instances_active : ℕ

-- The recorder when it is installed
abbrev pub init_metrics : CanalMetrics
init_metrics = record {
  parsed = 0;
  filtered = 0;
  dispatched = 0;
  dispatch_errors = 0;
  instances_active = 0;
}

abbrev pub inc_parsed : ℕ → CanalMetrics → CanalMetrics
inc_parsed count m = record m { parsed = m.parsed + count }

abbrev pub inc_filtered : ℕ → CanalMetrics → CanalMetrics
inc_filtered count m = record m { filtered = m.filtered + count }

abbrev pub inc_dispatched : ℕ → CanalMetrics → CanalMetrics
inc_dispatched count m = record m { dispatched = m.dispatched + count }

abbrev pub inc_dispatch_errors : ℕ → CanalMetrics → CanalMetrics
inc_dispatch_errors count m = record m { dispatch_errors = m.dispatch_errors + count }

abbrev pub set_instances_active : ℕ → CanalMetrics → CanalMetrics
set_instances_active count m = record m { instances_active = count }

-- The metrics are shared with their writers, so a scrape takes those of its moment.
pub record MetricsServer : Type 0 where
  pub auth_token : Option Text
  pub bind_addr : Text

unfoldable pub new : Text → MetricsServer
new bind_addr = record { auth_token = none; bind_addr = bind_addr }

unfoldable pub with_auth : Text → MetricsServer → MetricsServer
with_auth token server = record server { auth_token = some token }

-- The handler of the route /metrics, for the Authorization header of a request
unfoldable pub scrape :
    (CanalMetrics → Text) → MetricsServer → CanalMetrics → Option Text → Result Text ℕ
scrape render server metrics header =
    if check_metrics_auth header server.auth_token then ok (render metrics) else err unauthorized
