-- ===== src/Metrics/Tests.antt =====
-- Runs of the metrics service.
use wazuh_dashboard_security.Base.{
  List, [], ◌∷◌, ◌++◌, any, true, ◌≡◌, ◌⊎◌, refl, ◌+◌, some, none, lookup, insert,
}
use wazuh_dashboard_security.Metrics.{
  Counts, Counter, Report, default_counter, aggregated, aggregate_metrics, add_counts, count_of,
  counter_of, update_metrics, get_metrics,
}
use wazuh_dashboard_security.Metrics.Counts.{
  Event, report, read, run, read_from, counted, reported_in, run-conserves,
}
use wazuh_dashboard_security.Metrics.Refusals.{lacks_counter}
use wazuh_dashboard_security.Metrics.Manager.{
  Step, started, source_selected, log_type_configured, create_clicked, initial_checkpoint,
  send_metrics, metric_emitted_for_step,
}
use wazuh_dashboard_security.Metrics.Manager.Steps.{
  Sends, reported_steps, times, reported_steps-exact, reported_steps-start,
}

abbrev two_started : Report
two_started = ("CreateDetector", some (("started", 2) ∷ ("network", 1) ∷ [])) ∷ ("Other", none) ∷ []

abbrev events : List Event
events = report two_started ∷ read ∷ report two_started ∷ report two_started ∷ []

abbrev two_counts : Counts
two_counts =
    ("started", 2)
    ∷ ("sourceSelected", 0)
    ∷ ("rulesConfigured", 0)
    ∷ ("fieldMappingsConfigured", 0)
    ∷ ("threatIntelConfigured", 0)
    ∷ ("stepTwoInitiated", 0)
    ∷ ("triggerConfigured", 0)
    ∷ ("createClicked", 0)
    ∷ ("network", 1)
    ∷ []

abbrev two_counter : Counter
two_counter = ("CreateDetector", two_counts) ∷ []

abbrev four_counter : Counter
four_counter = ("CreateDetector", insert "network" 2 (insert "started" 4 two_counts)) ∷ []

one_report : aggregate_metrics two_started default_counter ≡ aggregated two_counter
unfolding aggregate_metrics counter_of add_counts count_of lookup insert
one_report = refl

run-events : run events default_counter ≡ some (two_counter ∷ [], four_counter)
unfolding run get_metrics update_metrics aggregate_metrics counter_of add_counts count_of lookup
    insert
run-events = refl

run-conserves_example :
    read_from "CreateDetector" "started" (two_counter ∷ [])
      + counted "CreateDetector" "started" four_counter
    ≡ counted "CreateDetector" "started" default_counter
      + reported_in "CreateDetector" "started" events
run-conserves_example =
    run-conserves "CreateDetector" "started" events default_counter four_counter (two_counter ∷ [])
      run-events

abbrev other_started : Report
other_started = two_started ++ ("Other", some (("x", 1) ∷ [])) ∷ []

other_started-lacks : any (lacks_counter default_counter) other_started ≡ true
unfolding counter_of lookup
other_started-lacks = refl

abbrev sends : Sends
sends =
    (source_selected, none)
    ∷ (started, none)
    ∷ (log_type_configured, some "network")
    ∷ (started, none)
    ∷ (log_type_configured, some "dns")
    ∷ []

sends-reported : reported_steps sends initial_checkpoint ≡ started ∷ log_type_configured ∷ []
unfolding send_metrics metric_emitted_for_step
sends-reported = refl

named_report : (send_metrics log_type_configured (some "network") 1).0 ≡ some "network"
unfolding send_metrics metric_emitted_for_step
named_report = refl

reported_steps-exact_example :
    times create_clicked
      (reported_steps ((started, none) ∷ (create_clicked, none) ∷ []) initial_checkpoint)
    ≡ 1
reported_steps-exact_example =
    reported_steps-exact create_clicked none ((create_clicked, none) ∷ []) refl refl

reported_steps-start_example :
    (reported_steps sends initial_checkpoint ≡ [])
    ⊎ ((rest : List Step) × (reported_steps sends initial_checkpoint ≡ started ∷ rest))
reported_steps-start_example = reported_steps-start sends
