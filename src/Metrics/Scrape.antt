-- ===== src/Metrics/Scrape.antt =====
-- Which requests to /metrics of crates/canal-prometheus/src/metrics_server.rs are answered.
use canal_rust.Prelude.{◌≡◌, ◌↔◌, refl, Option, some, Bool, true, false, is_empty, if◌then◌else◌}
use canal_rust.Prelude.Bytes.{Text}
use canal_rust.Common.CanalError.{ok, err}
use canal_rust.Admin.{unauthorized, header_text, check_metrics_auth}
use canal_rust.Admin.Tokens.{Names, check_metrics_auth_iff}
use canal_rust.Metrics.{CanalMetrics, new, with_auth, scrape}

answered :
    {P : Type 0} (passed : Bool) (text : Text)
    → (passed ≡ true) ↔ P
    → ((if passed then ok text else err unauthorized) ≡ ok text) ↔ P
answered true text h = (λ e. h.0 refl, λ p. refl)
answered false text h = (λ e. absurd cc, λ p. let t = h.1 p in absurd cc)

-- A metrics server with a token answers a request to /metrics with the rendered metrics exactly when
-- the token is not empty and the Authorization header is that token, alone or as a bearer token.
pub scrape-with_auth :
    (render : CanalMetrics → Text) (bind_addr token : Text) (metrics : CanalMetrics)
    (header : Option Text)
    → (scrape render (with_auth token (new bind_addr)) metrics header ≡ ok (render metrics))
      ↔ ((is_empty token ≡ false) × Names (header_text header) token)
unfolding scrape with_auth new
scrape-with_auth render bind_addr token metrics header =
    answered (check_metrics_auth header (some token)) (render metrics)
      (check_metrics_auth_iff header token)
