-- ===== src/Browser/Telemetry/Tests.antt =====
-- Runs of the browser's metrics service.
use wazuh_dashboard_security.Base.{ℕ, ◌+◌, true, List, [], ◌∷◌, some, lookup, insert, ◌≡◌, refl}
use wazuh_dashboard_security.Metrics
use wazuh_dashboard_security.Metrics.{
  Counts, Counter, Report, default_counter, aggregate_metrics, add_counts, count_of, counter_of,
}
use wazuh_dashboard_security.Metrics.Counts.{counted}
use wazuh_dashboard_security.Browser.Telemetry.{
  Telemetry, new_service, emit_metrics, update_metrics,
}
use wazuh_dashboard_security.Browser.Telemetry.Conserves.{Event, report, tick, run, reported_in}
use wazuh_dashboard_security.Browser.Telemetry.Delivers.{deliver, deliver-run}

abbrev started_once : Report
started_once = ("CreateDetector", some (("started", 1) ∷ [])) ∷ []

abbrev events : List Event
events = report started_once ∷ tick ∷ tick ∷ report started_once ∷ []

abbrev zeros : Counts
zeros =
    ("sourceSelected", 0)
    ∷ ("rulesConfigured", 0)
    ∷ ("fieldMappingsConfigured", 0)
    ∷ ("threatIntelConfigured", 0)
    ∷ ("stepTwoInitiated", 0)
    ∷ ("triggerConfigured", 0)
    ∷ ("createClicked", 0)
    ∷ []

abbrev started_count : ℕ → Counter
started_count n = ("CreateDetector", ("started", n) ∷ zeros) ∷ []

abbrev last : Telemetry
last = record {
  new_metrics_available = true;
  metrics_counter = started_count 1;
  emit_timer = true;
  interval_in_ms = 60000;
  sent = started_count 1 ∷ [];
}

run-events : run events (new_service (some 1)) ≡ some last
unfolding run new_service emit_metrics update_metrics aggregate_metrics counter_of add_counts
    count_of lookup insert
run-events = refl

deliver-sent : deliver last.sent default_counter ≡ some (started_count 1)
unfolding deliver Metrics.update_metrics aggregate_metrics counter_of add_counts count_of lookup
    insert
deliver-sent = refl

deliver-run_example :
    counted "CreateDetector" "started" (started_count 1)
      + counted "CreateDetector" "started" last.metrics_counter
    ≡ counted "CreateDetector" "started" default_counter
      + reported_in "CreateDetector" "started" events
deliver-run_example =
    deliver-run "CreateDetector" "started" 1 events last default_counter (started_count 1) refl
      run-events deliver-sent
