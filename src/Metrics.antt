-- ===== src/Metrics.antt =====
-- Usage metrics: aggregateMetrics of common/helpers.ts, server/services/MetricsService.ts, and
-- public/metrics/DetectorMetricsManager.ts (in `Manager`). A counter is an object of objects; the
-- objects that aggregateMetrics changes in place are reached from the module's variable alone, so
-- that values stand for them.
pub mod Counts
pub mod Refusals
pub mod Manager
mod Tests
use wazuh_dashboard_security.Base.{
  ℕ, ◌+◌, String, [], ◌∷◌, Option, none, some, Dict, lookup, insert,
}

abbrev pub Counts : Type 0
Counts = Dict ℕ

abbrev pub Counter : Type 0
Counter = Dict Counts

-- PartialMetricsCounter: a workflow's metrics may be undefined.
abbrev pub Report : Type 0
Report = Dict (Option Counts)

abbrev pub default_counter : Counter
default_counter =
    (
      "CreateDetector",
      ("started", 0)
          ∷ ("sourceSelected", 0)
          ∷ ("rulesConfigured", 0)
          ∷ ("fieldMappingsConfigured", 0)
          ∷ ("threatIntelConfigured", 0)
          ∷ ("stepTwoInitiated", 0)
          ∷ ("triggerConfigured", 0)
          ∷ ("createClicked", 0)
          ∷ [],
    )
    ∷ []

-- counter[metric], where what is missing counts as 0.
unfoldable pub count_of : String → Counts → ℕ
unfolding lookup
count_of metric counts = elim (lookup metric counts) [ none ↦ 0 | some n ↦ n ]

-- The inner loop: a missing metric starts at 0, and the count is added.
unfoldable pub add_counts : Counts → Counts → Counts
unfolding count_of insert
add_counts [] counter = counter
add_counts ((metric, count) ∷ counts) counter =
    add_counts counts (insert metric (count_of metric counter + count) counter)

-- partialMetrics[workflow] || cloneDeep(DEFAULT_METRICS_COUNTER[workflow])
unfoldable pub counter_of : String → Counter → Option Counts
unfolding lookup
counter_of workflow current = elim (lookup workflow current) [
  | some counts ↦ some counts
  | none ↦ lookup workflow default_counter
]

-- The result, or the TypeError of reading a metric of a workflow that has no counter, with
-- partialMetrics as it is then.
pub data Aggregated : Type 0 where
  aggregated : Counter → Aggregated
  type_error : Counter → Aggregated

-- The outer loop. A workflow with no counter and no metrics is set to undefined, which reads as
-- missing.
unfoldable pub aggregate_metrics : Report → Counter → Aggregated
unfolding counter_of add_counts insert
aggregate_metrics [] current = aggregated current
aggregate_metrics ((workflow, none) ∷ metrics) current = aggregate_metrics metrics current
aggregate_metrics ((workflow, some []) ∷ metrics) current =
    aggregate_metrics metrics (elim (counter_of workflow current) [
      | none ↦ current
      | some counter ↦ insert workflow counter current
    ])
aggregate_metrics ((workflow, some (count ∷ counts)) ∷ metrics) current =
    elim (counter_of workflow current) [
      | none ↦ type_error current
      | some counter ↦
          aggregate_metrics metrics (insert workflow (add_counts (count ∷ counts) counter) current)
    ]

-- The service: the module's variable is the state. getMetrics answers with it and resets it.
unfoldable pub get_metrics : Counter → Counter × Counter
get_metrics counter = (counter, default_counter)

-- The objects that are there already are changed in place, also where the aggregation throws.
unfoldable pub changed_in_place : Counter → Counter → Counter
unfolding lookup
changed_in_place partial [] = []
changed_in_place partial ((workflow, counter) ∷ current) =
    (workflow, elim (lookup workflow partial) [ none ↦ counter | some changed ↦ changed ])
    ∷ changed_in_place partial current

unfoldable pub update_metrics : Report → Counter → Option Counter × Counter
unfolding aggregate_metrics changed_in_place
update_metrics metrics counter = elim (aggregate_metrics metrics counter) [
  | aggregated next ↦ (some next, next)
  | type_error partial ↦ (none, changed_in_place partial counter)
]
