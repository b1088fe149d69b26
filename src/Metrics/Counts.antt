-- ===== src/Metrics/Counts.antt =====
-- What the metrics service counts, over reports and reads.
use wazuh_dashboard_security.Base.{
  ℕ, ◌+◌, String, true, List, [], ◌∷◌, Option, none, some, if◌then◌else◌, lookup, insert,
  lookup-insert, ◌≡◌, refl, ap, arith, ◌==◌, eq_iff, Option-cases, inl, inr,
}
use wazuh_dashboard_security.Metrics.{
  Aggregated, aggregated, type_error, Counts, Counter, Report, default_counter, count_of,
  add_counts, counter_of, aggregate_metrics, get_metrics, update_metrics,
}

-- What a report says of one metric.
abbrev pub sum_of : String → Counts → ℕ
sum_of metric [] = 0
sum_of metric ((m, n) ∷ counts) = (if m == metric then n else 0) + sum_of metric counts

count_of-insert :
    (metric m : String) (n : ℕ) (counter : Counts)
    → count_of metric (insert m n counter) ≡ (if m == metric then n else count_of metric counter)
unfolding count_of
count_of-insert metric m n counter = ground (arith, lookup-insert m metric n counter)

count_of-add_counts :
    (metric : String) (counts counter : Counts)
    → count_of metric (add_counts counts counter) ≡ count_of metric counter + sum_of metric counts
unfolding add_counts
count_of-add_counts metric [] counter = omega arith
count_of-add_counts metric ((m, n) ∷ counts) counter = ground (
  arith,
  count_of-add_counts metric counts (insert m (count_of m counter + n) counter),
  count_of-insert metric m (count_of m counter + n) counter,
  eq_iff m metric,
)

-- The count of a metric of a workflow; a workflow without a counter has its default one.
abbrev pub counted : String → String → Counter → ℕ
counted workflow metric counter = elim (counter_of workflow counter) [
  | none ↦ 0
  | some counts ↦ count_of metric counts
]

-- What a whole report adds to it.
abbrev pub reported : String → String → Report → ℕ
reported workflow metric [] = 0
reported workflow metric ((w, none) ∷ report) = reported workflow metric report
reported workflow metric ((w, some counts) ∷ report) =
    (if w == workflow then sum_of metric counts else 0) + reported workflow metric report

counted-insert :
    (workflow metric w : String) (counts : Counts) (counter : Counter)
    → counted workflow metric (insert w counts counter)
      ≡ (if w == workflow then count_of metric counts else counted workflow metric counter)
unfolding counter_of
counted-insert workflow metric w counts counter =
    ground (arith, lookup-insert w workflow counts counter)

pub counter_of_eq :
    (workflow w : String) (counter : Counter)
    → (w == workflow) ≡ true
    → counter_of w counter ≡ counter_of workflow counter
counter_of_eq workflow w counter e = ap (λ k. counter_of k counter) ((eq_iff w workflow).0 e)

-- What an aggregation that does not throw adds.
pub aggregate_metrics-adds :
    (workflow metric : String) (report : Report) (current next : Counter)
    → aggregate_metrics report current ≡ aggregated next
    → counted workflow metric next
      ≡ counted workflow metric current + reported workflow metric report
unfolding aggregate_metrics
aggregate_metrics-adds workflow metric [] current next e = ground arith
aggregate_metrics-adds workflow metric ((w, none) ∷ report) current next e =
    aggregate_metrics-adds workflow metric report current next e
aggregate_metrics-adds workflow metric ((w, some []) ∷ report) current next e =
    elim (Option-cases (counter_of w current)) [
      | inl missing ↦ ground (arith, aggregate_metrics-adds workflow metric report current next)
      | inr (counter, found) ↦ ground (
        arith,
        aggregate_metrics-adds workflow metric report (insert w counter current) next,
        counted-insert workflow metric w counter current,
        counter_of_eq workflow w current,
      )
    ]
aggregate_metrics-adds workflow metric ((w, some (c ∷ cs)) ∷ report) current next e =
    elim (Option-cases (counter_of w current)) [
      | inl missing ↦ absurd (ground arith)
      | inr (counter, found) ↦ ground (
        arith,
        aggregate_metrics-adds workflow metric report
            (insert w (add_counts (c ∷ cs) counter) current) next,
        counted-insert workflow metric w (add_counts (c ∷ cs) counter) current,
        count_of-add_counts metric (c ∷ cs) counter,
        counter_of_eq workflow w current,
      )
    ]

-- The service under a sequence of requests: reports that arrive, and reads that take the counter.
pub data Event : Type 0 where
  report : Report → Event
  read : Event

-- The counters that were read, and the variable at the end; none if a report was refused.
unfoldable pub run : List Event → Counter → Option (List Counter × Counter)
unfolding get_metrics update_metrics
run [] counter = some ([], counter)
run (read ∷ events) counter = elim (run events (get_metrics counter).1) [
  | none ↦ none
  | some (snapshots, last) ↦ some ((get_metrics counter).0 ∷ snapshots, last)
]
run (report r ∷ events) counter =
    let rest = run events (update_metrics r counter).1 in
    elim (update_metrics r counter).0 [ none ↦ none | some next ↦ rest ]

abbrev pub reported_in : String → String → List Event → ℕ
reported_in workflow metric [] = 0
reported_in workflow metric (read ∷ events) = reported_in workflow metric events
reported_in workflow metric (report r ∷ events) =
    reported workflow metric r + reported_in workflow metric events

abbrev pub read_from : String → String → List Counter → ℕ
read_from workflow metric [] = 0
read_from workflow metric (snapshot ∷ snapshots) =
    counted workflow metric snapshot + read_from workflow metric snapshots

abbrev default_counts : Counts
default_counts = elim default_counter [ [] ↦ [] | (w, counts) ∷ rest ↦ counts ]

abbrev AreZero : Counts → Type 0
AreZero [] = Unit
AreZero ((m, n) ∷ counts) = (n ≡ 0) × AreZero counts

count_of-AreZero : (metric : String) (counts : Counts) → AreZero counts → count_of metric counts ≡ 0
unfolding count_of lookup
count_of-AreZero metric [] h = refl
count_of-AreZero metric ((m, n) ∷ counts) (z, h) = ground (arith, count_of-AreZero metric counts h)

pub counted-default : (workflow metric : String) → counted workflow metric default_counter ≡ 0
unfolding counter_of lookup
counted-default workflow metric = ground (
  arith,
  count_of-AreZero metric default_counts
      (refl, (refl, (refl, (refl, (refl, (refl, (refl, (refl, tt)))))))),
)

module _ (workflow metric : String) (events : List Event) (r : Report) where
  run_report :
      (start last : Counter) (snapshots : List Counter) (outcome : Aggregated)
      → aggregate_metrics r start ≡ outcome
      → run (report r ∷ events) start ≡ some (snapshots, last)
      → ((next : Counter)
          → run events next ≡ some (snapshots, last)
          → read_from workflow metric snapshots + counted workflow metric last
            ≡ counted workflow metric next + reported_in workflow metric events)
      → read_from workflow metric snapshots + counted workflow metric last
        ≡ counted workflow metric start + reported_in workflow metric (report r ∷ events)
  unfolding run update_metrics
  run_report start last snapshots (type_error partial) found e rest = absurd (ground arith)
  run_report start last snapshots (aggregated next) found e rest =
      ground
        (arith, rest next (ground arith), aggregate_metrics-adds workflow metric r start next found)

-- Where no report is refused, the counters read and the one kept at the end hold between them
-- exactly what was kept at the start and what the reports say, of each metric of each workflow:
-- nothing is lost, or counted twice.
pub run-conserves :
    (workflow metric : String) (events : List Event) (start last : Counter)
    → (snapshots : List Counter) → run events start ≡ some (snapshots, last)
    → read_from workflow metric snapshots + counted workflow metric last
      ≡ counted workflow metric start + reported_in workflow metric events
unfolding run
run-conserves workflow metric [] start last snapshots e = ground arith
run-conserves workflow metric (read ∷ events) start last snapshots e =
    elim (Option-cases (run events default_counter)) [
      | inl refused ↦ absurd (ground arith)
      | inr ((rest, end), found) ↦ ground (
        arith,
        run-conserves workflow metric events default_counter end rest found,
        counted-default workflow metric,
      )
    ]
run-conserves workflow metric (report r ∷ events) start last snapshots e =
    run_report workflow metric events r start last snapshots (aggregate_metrics r start) refl e
      (λ next. run-conserves workflow metric events next last snapshots)
