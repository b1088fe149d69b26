-- ===== src/Metrics/Refusals.antt =====
-- Which reports updateMetrics of server/services/MetricsService.ts refuses.
use wazuh_dashboard_security.Base.{String, Bool, true, false, [], ◌∷◌, Option, none, some}
use wazuh_dashboard_security.Metrics.{
  Aggregated, aggregated, type_error, Counts, Counter, counter_of,
}

abbrev pub is_none : {A : Type 0} → Option A → Bool
is_none none = true
is_none (some a) = false

-- An entry with metrics, for a workflow that has no counter.
abbrev pub lacks_counter : Counter → String × Option Counts → Bool
lacks_counter current (w, none) = false
lacks_counter current (w, some []) = false
lacks_counter current (w, some (c ∷ cs)) = is_none (counter_of w current)

abbrev is_refused : Aggregated → Bool
is_refused (aggregated next) = false
is_refused (type_error partial) = true
