-- ===== src/Browser/Telemetry/Conserves.antt =====
-- What the browser's metrics service counts, over reports and ticks of its timer.
use wazuh_dashboard_security.Base.{
  ℕ, ◌+◌, String, true, false, List, [], ◌∷◌, ◌++◌, Option, none, some, if◌then◌else◌, nat_eq, ◌≡◌,
  refl, arith, Bool-cases, inl, inr,
}
use wazuh_dashboard_security.Metrics.{
  Aggregated, aggregated, type_error, Counter, Report, aggregate_metrics,
}
use wazuh_dashboard_security.Metrics.Counts.{
  counted, reported, read_from, counted-default, aggregate_metrics-adds,
}
use wazuh_dashboard_security.Browser.Telemetry.{Telemetry, emit_metrics, update_metrics}

-- A report of a page, and the timer or the leaving of the page, which both emit.
pub data Event : Type 0 where
  report : Report → Event
  tick : Event

-- The service at the end; none if a report threw.
unfoldable pub run : List Event → Telemetry → Option Telemetry
unfolding emit_metrics update_metrics
run [] t = some t
run (tick ∷ events) t = run events (emit_metrics t)
run (report r ∷ events) t =
    let rest = run events (update_metrics r t).1 in if (update_metrics r t).0 then rest else none

abbrev pub reported_in : String → String → List Event → ℕ
reported_in workflow metric [] = 0
reported_in workflow metric (tick ∷ events) = reported_in workflow metric events
reported_in workflow metric (report r ∷ events) =
    reported workflow metric r + reported_in workflow metric events

-- What the service has counted: what was sent, and what it holds.
abbrev pub accounted : String → String → Telemetry → ℕ
accounted workflow metric t =
    read_from workflow metric t.sent + counted workflow metric t.metrics_counter

read_from-append :
    (workflow metric : String) (sent : List Counter) (c : Counter)
    → read_from workflow metric (sent ++ c ∷ [])
      ≡ read_from workflow metric sent + counted workflow metric c
read_from-append workflow metric [] c = omega arith
read_from-append workflow metric (d ∷ sent) c =
    omega (arith, read_from-append workflow metric sent c)

emit_metrics-accounted :
    (workflow metric : String) (t : Telemetry)
    → accounted workflow metric (emit_metrics t) ≡ accounted workflow metric t
unfolding emit_metrics
emit_metrics-accounted workflow metric t = ground (
  arith,
  read_from-append workflow metric t.sent t.metrics_counter,
  counted-default workflow metric,
)

emit_metrics-interval : (t : Telemetry) → (emit_metrics t).interval_in_ms ≡ t.interval_in_ms
unfolding emit_metrics
emit_metrics-interval t = ground arith

module _ (workflow metric : String) (r : Report) where
  update_metrics-accounted :
      (t : Telemetry) (outcome : Aggregated)
      → aggregate_metrics r t.metrics_counter ≡ outcome
      → nat_eq t.interval_in_ms 0 ≡ false
      → (update_metrics r t).0 ≡ true
      → accounted workflow metric (update_metrics r t).1
        ≡ accounted workflow metric t + reported workflow metric r
  unfolding update_metrics
  update_metrics-accounted t (type_error partial) found on ok = absurd (ground arith)
  update_metrics-accounted t (aggregated next) found on ok =
      ground (arith, aggregate_metrics-adds workflow metric r t.metrics_counter next found)

update_metrics-interval :
    (r : Report) (t : Telemetry) (outcome : Aggregated)
    → aggregate_metrics r t.metrics_counter ≡ outcome
    → (update_metrics r t).1.interval_in_ms ≡ t.interval_in_ms
unfolding update_metrics
update_metrics-interval r t (type_error partial) found = ground arith
update_metrics-interval r t (aggregated next) found = ground arith

-- Where telemetry is on and no report throws, the counters that were sent and the one kept at the
-- end hold between them exactly what they held at the start and what the pages report, of each
-- metric of each workflow, however reports and ticks of the timer mix.
pub run-accounted :
    (workflow metric : String) (events : List Event) (t last : Telemetry)
    → nat_eq t.interval_in_ms 0 ≡ false
    → run events t ≡ some last
    → accounted workflow metric last
      ≡ accounted workflow metric t + reported_in workflow metric events
unfolding run
run-accounted workflow metric [] t last on e = ground arith
run-accounted workflow metric (tick ∷ events) t last on e = ground (
  arith,
  run-accounted workflow metric events (emit_metrics t) last
      (ground (arith, emit_metrics-interval t, on)) e,
  emit_metrics-accounted workflow metric t,
)
run-accounted workflow metric (report r ∷ events) t last on e =
    elim (Bool-cases (update_metrics r t).0) [
      | inr refused ↦ absurd (ground arith)
      | inl ok ↦ ground (
        arith,
        run-accounted workflow metric events (update_metrics r t).1 last
            (ground (arith, update_metrics-interval r t _ refl, on)) (ground arith),
        update_metrics-accounted workflow metric r t _ refl on ok,
      )
    ]
