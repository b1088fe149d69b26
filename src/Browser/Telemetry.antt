-- ===== src/Browser/Telemetry.antt =====
-- public/services/MetricsService.ts: counts are kept in the browser, and sent when the timer fires
-- or the page is left. The interval is the one of the plugin's configuration.
pub mod Conserves
pub mod Tidy
pub mod Delivers
mod Tests
use wazuh_dashboard_security.Base.{
  ℕ, ◌*◌, Bool, true, false, List, [], ◌∷◌, ◌++◌, Option, none, some, if◌then◌else◌, nat_eq, Dict,
}
use wazuh_dashboard_security.Json.{Json, undefined, num, object}
use wazuh_dashboard_security.Json.Text.{◌&◌}
use wazuh_dashboard_security.Server.Routes.{Method}
use wazuh_dashboard_security.Metrics.{
  Counter, Report, aggregated, type_error, default_counter, aggregate_metrics, changed_in_place,
}
use wazuh_dashboard_security.Browser.{HttpRequest, Page, json_body}
use wazuh_dashboard_security.Browser.Api

pub record Telemetry : Type 0 where
  pub new_metrics_available : Bool
  pub metrics_counter : Counter
  pub emit_timer : Bool
  pub interval_in_ms : ℕ
  -- The counters that were sent.
  pub sent : List Counter

-- uxTelemetryInterval || 0, in minutes.
unfoldable pub new_service : Option ℕ → Telemetry
new_service minutes = record {
  new_metrics_available = false;
  metrics_counter = default_counter;
  emit_timer = false;
  interval_in_ms = elim minutes [ none ↦ 0 | some n ↦ n * 60000 ];
  sent = [];
}

abbrev counts_json : Dict ℕ → Dict Json
counts_json [] = []
counts_json ((metric, n) ∷ counts) = (metric, num n) ∷ counts_json counts

abbrev counter_json : Counter → Dict Json
counter_json [] = []
counter_json ((workflow, counts) ∷ counter) =
    (workflow, object (counts_json counts)) ∷ counter_json counter

-- The request is not awaited, and its outcome is not looked at.
unfoldable pub metrics_request : Page → Counter → HttpRequest
metrics_request page counter = record {
  method = Method.post;
  url = ".." & Api.metrics;
  query = undefined;
  body = json_body page (object (counter_json counter));
}

unfoldable pub emit_metrics : Telemetry → Telemetry
emit_metrics t =
    if t.new_metrics_available
    then record t {
      new_metrics_available = false;
      metrics_counter = default_counter;
      sent = t.sent ++ t.metrics_counter ∷ [];
    }
    else t

-- `false` where the aggregation throws, and with it the method.
unfoldable pub update_metrics : Report → Telemetry → Bool × Telemetry
unfolding aggregate_metrics changed_in_place
update_metrics metrics t =
    if nat_eq t.interval_in_ms 0
    then (true, t)
    else (elim (aggregate_metrics metrics t.metrics_counter) [
      | aggregated next ↦ (
        true,
        record t { new_metrics_available = true; metrics_counter = next; emit_timer = true },
      )
      | type_error partial ↦
          (false, record t { metrics_counter = changed_in_place partial t.metrics_counter })
    ])
