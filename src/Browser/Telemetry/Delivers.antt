-- ===== src/Browser/Telemetry/Delivers.antt =====
-- The counters that the browser sends, as the server's metrics service counts them.
use wazuh_dashboard_security.Base.{
  ℕ, ◌+◌, String, true, false, List, [], ◌∷◌, ◌++◌, Option, none, some, nat_eq, ◌≡◌, refl, subst,
  arith, Bool-cases, inl, inr, All,
}
use wazuh_dashboard_security.Metrics
use wazuh_dashboard_security.Metrics.{
  Aggregated, aggregated, type_error, Counter, Report, default_counter, aggregate_metrics,
}
use wazuh_dashboard_security.Metrics.Counts.{
  counted, read_from, counted-default, aggregate_metrics-adds,
}
use wazuh_dashboard_security.Browser.Telemetry.{
  Telemetry, new_service, emit_metrics, update_metrics,
}
use wazuh_dashboard_security.Browser.Telemetry.Conserves.{
  Event, report, tick, run, reported_in, run-accounted,
}
use wazuh_dashboard_security.Browser.Telemetry.Tidy.{
  as_report, IsTidy, reported-counted, aggregate_metrics-IsTidy, default-IsTidy,
}

abbrev pub IsTidyService : Telemetry → Type 0
IsTidyService t = All IsTidy t.sent × IsTidy t.metrics_counter

All-push : (cs : List Counter) (c : Counter) → All IsTidy cs → IsTidy c → All IsTidy (cs ++ c ∷ [])
All-push [] c h k = (k, tt)
All-push (d ∷ cs) c (p, h) k = (p, All-push cs c h k)

emit_metrics-IsTidy : (t : Telemetry) → IsTidyService t → IsTidyService (emit_metrics t)
unfolding emit_metrics
emit_metrics-IsTidy t (sent, held) = elim (Bool-cases t.new_metrics_available) [
  | inl new ↦ rw new (All-push t.sent t.metrics_counter sent held, default-IsTidy)
  | inr old ↦ rw old (sent, held)
]

counting :
    (r : Report) (t : Telemetry) (outcome : Aggregated)
    → aggregate_metrics r t.metrics_counter ≡ outcome
    → nat_eq t.interval_in_ms 0 ≡ false
    → (update_metrics r t).0 ≡ true
    → IsTidyService t
    → IsTidyService (update_metrics r t).1
unfolding update_metrics
counting r t (type_error partial) found on ok tidy = absurd (ground arith)
counting r t (aggregated next) found on ok (sent, held) =
    rw (on, found) (sent, aggregate_metrics-IsTidy r t.metrics_counter next held found)

update_metrics-IsTidy :
    (r : Report) (t : Telemetry) (outcome : Aggregated)
    → aggregate_metrics r t.metrics_counter ≡ outcome
    → (update_metrics r t).0 ≡ true
    → IsTidyService t
    → IsTidyService (update_metrics r t).1
unfolding update_metrics
update_metrics-IsTidy r t outcome found ok tidy = elim (Bool-cases (nat_eq t.interval_in_ms 0)) [
  | inl off ↦ rw off tidy
  | inr on ↦ counting r t outcome found on ok tidy
]

pub run-IsTidy :
    (events : List Event) (t last : Telemetry)
    → IsTidyService t
    → run events t ≡ some last
    → IsTidyService last
unfolding run
run-IsTidy [] t last tidy e =
    let equal : t ≡ last = ground arith in subst (λ s. IsTidyService s) equal tidy
run-IsTidy (tick ∷ events) t last tidy e =
    run-IsTidy events (emit_metrics t) last (emit_metrics-IsTidy t tidy) e
run-IsTidy (report r ∷ events) t last tidy e = elim (Bool-cases (update_metrics r t).0) [
  | inl ok ↦
      run-IsTidy events (update_metrics r t).1 last (update_metrics-IsTidy r t _ refl ok tidy)
        (ground arith)
  | inr refused ↦ absurd (ground arith)
]

-- The server takes the counters in their order, each as a report; none if it refuses one.
unfoldable pub deliver : List Counter → Counter → Option Counter
unfolding Metrics.update_metrics
deliver [] server = some server
deliver (c ∷ sent) server =
    let (answer, after) = Metrics.update_metrics (as_report c) server in
    let rest = deliver sent after in elim answer [ none ↦ none | some next ↦ rest ]

module _ (workflow metric : String) where
  delivered :
      (sent : List Counter) (server after c : Counter)
      → IsTidy c
      → All IsTidy sent
      → (outcome : Aggregated) → aggregate_metrics (as_report c) server ≡ outcome
      → deliver (c ∷ sent) server ≡ some after
      → ((next : Counter)
          → deliver sent next ≡ some after
          → counted workflow metric after
            ≡ counted workflow metric next + read_from workflow metric sent)
      → counted workflow metric after
        ≡ counted workflow metric server + read_from workflow metric (c ∷ sent)
  unfolding deliver Metrics.update_metrics
  delivered sent server after c tidy h (type_error partial) found e rest = absurd (ground arith)
  delivered sent server after c tidy h (aggregated next) found e rest = ground (
    arith,
    rest next (ground arith),
    aggregate_metrics-adds workflow metric (as_report c) server next found,
    reported-counted workflow metric c tidy,
  )

  deliver-counts :
      (sent : List Counter) (server after : Counter)
      → All IsTidy sent
      → deliver sent server ≡ some after
      → counted workflow metric after
        ≡ counted workflow metric server + read_from workflow metric sent
  unfolding deliver
  deliver-counts [] server after h e = ground arith
  deliver-counts (c ∷ sent) server after (tidy, h) e =
      delivered sent server after c tidy h (aggregate_metrics (as_report c) server) refl e
        (λ next. deliver-counts sent next after h)

  -- From the start of the browser's service with telemetry on, however reports and ticks mix: once
  -- the server has taken the counters that were sent, what it counts and what the browser still
  -- holds are together what the server counted before and what the pages report, of each metric of
  -- each workflow. No report is to throw, in the browser or on the server.
  pub deliver-run :
      (minutes : ℕ) (events : List Event) (last : Telemetry) (server after : Counter)
      → nat_eq minutes 0 ≡ false
      → run events (new_service (some minutes)) ≡ some last
      → deliver last.sent server ≡ some after
      → counted workflow metric after + counted workflow metric last.metrics_counter
        ≡ counted workflow metric server + reported_in workflow metric events
  unfolding new_service
  deliver-run minutes events last server after on e d =
      let tidy = run-IsTidy events (new_service (some minutes)) last (tt, default-IsTidy) e in
      ground (
        arith,
        run-accounted workflow metric events (new_service (some minutes)) last (ground (arith, on))
            e,
        deliver-counts last.sent server after tidy.0 d,
        counted-default workflow metric,
      )
