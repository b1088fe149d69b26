-- ===== src/Browser/Telemetry/Tidy.antt =====
-- Counters with no key twice, which is what JavaScript objects are; the services keep them so.
use wazuh_dashboard_security.Base.{
  ◌+◌, String, [], ◌∷◌, none, some, Dict, lookup, insert, lookup-insert, ◌≡◌, refl, subst, arith,
  ◌==◌, eq_iff, Option-cases, inl, inr, Bool-cases, All,
}
use wazuh_dashboard_security.Metrics.{
  Counts, Counter, Report, aggregated, default_counter, count_of, add_counts, counter_of,
  aggregate_metrics,
}
use wazuh_dashboard_security.Metrics.Counts.{sum_of, counted, reported, counted-default}

module _ {V : Type 0} where
  abbrev pub AreDistinct : Dict V → Type 0
  AreDistinct [] = Unit
  AreDistinct ((k, v) ∷ m) = (lookup k m ≡ none) × AreDistinct m

  insert-AreDistinct :
      (k : String) (v : V) (m : Dict V) → AreDistinct m → AreDistinct (insert k v m)
  unfolding insert lookup
  insert-AreDistinct k v [] h = (refl, tt)
  insert-AreDistinct k v ((j, w) ∷ m) (fresh, h) = elim (Bool-cases (j == k)) [
    | inl same ↦ rw same (fresh, h)
    | inr other ↦
        rw other (
          ground (arith, lookup-insert k j v m, eq_iff k j, eq_iff j k),
          insert-AreDistinct k v m h,
        )
  ]

-- A counter as a report.
abbrev pub as_report : Counter → Report
as_report [] = []
as_report ((workflow, counts) ∷ counter) = (workflow, some counts) ∷ as_report counter

abbrev pub IsTidy : Counter → Type 0
IsTidy counter = AreDistinct counter × All (λ e. AreDistinct e.1) counter

sum_of-absent :
    (metric : String) (counts : Counts) → lookup metric counts ≡ none → sum_of metric counts ≡ 0
unfolding lookup
sum_of-absent metric [] h = refl
sum_of-absent metric ((m, n) ∷ counts) h = elim (Bool-cases (m == metric)) [
  | inl same ↦ absurd (ground arith)
  | inr other ↦ ground (arith, sum_of-absent metric counts)
]

sum_of-count_of :
    (metric : String) (counts : Counts)
    → AreDistinct counts
    → sum_of metric counts ≡ count_of metric counts
unfolding count_of lookup
sum_of-count_of metric [] h = refl
sum_of-count_of metric ((m, n) ∷ counts) (fresh, h) = elim (Bool-cases (m == metric)) [
  | inl same ↦ ground (arith, sum_of-absent metric counts, eq_iff m metric)
  | inr other ↦ ground (arith, sum_of-count_of metric counts h)
]

reported-absent :
    (workflow metric : String) (counter : Counter)
    → lookup workflow counter ≡ none
    → reported workflow metric (as_report counter) ≡ 0
unfolding lookup
reported-absent workflow metric [] h = refl
reported-absent workflow metric ((w, counts) ∷ counter) h = elim (Bool-cases (w == workflow)) [
  | inl same ↦ absurd (ground arith)
  | inr other ↦ ground (arith, reported-absent workflow metric counter)
]

counted-absent :
    (workflow metric : String) (counter : Counter)
    → lookup workflow counter ≡ none
    → counted workflow metric counter ≡ 0
unfolding counter_of
counted-absent workflow metric counter h = ground (arith, counted-default workflow metric)

reported-present :
    (workflow metric : String) (counter : Counter) (counts : Counts)
    → IsTidy counter
    → lookup workflow counter ≡ some counts
    → reported workflow metric (as_report counter) ≡ count_of metric counts
unfolding lookup
reported-present workflow metric [] counts tidy e = absurd (ground arith)
reported-present workflow metric ((w, here) ∷ counter) counts ((fresh, h), (good, goods)) e =
    elim (Bool-cases (w == workflow)) [
      | inl same ↦ ground (
        arith,
        reported-absent workflow metric counter,
        sum_of-count_of metric here good,
        eq_iff w workflow,
      )
      | inr other ↦ ground (arith, reported-present workflow metric counter counts (h, goods))
    ]

-- Of a tidy counter, a report says what it counts.
pub reported-counted :
    (workflow metric : String) (counter : Counter)
    → IsTidy counter
    → reported workflow metric (as_report counter) ≡ counted workflow metric counter
unfolding counter_of
reported-counted workflow metric counter tidy = elim (Option-cases (lookup workflow counter)) [
  | inl missing ↦
      ground
        (arith, reported-absent workflow metric counter, counted-absent workflow metric counter)
  | inr (counts, found) ↦ ground (arith, reported-present workflow metric counter counts tidy)
]

add_counts-AreDistinct :
    (counts counter : Counts) → AreDistinct counter → AreDistinct (add_counts counts counter)
unfolding add_counts
add_counts-AreDistinct [] counter h = h
add_counts-AreDistinct ((m, n) ∷ counts) counter h =
    add_counts-AreDistinct counts (insert m (count_of m counter + n) counter)
      (insert-AreDistinct m (count_of m counter + n) counter h)

All-insert :
    (k : String) (counts : Counts) (m : Counter)
    → AreDistinct counts
    → All (λ e. AreDistinct e.1) m
    → All (λ e. AreDistinct e.1) (insert k counts m)
unfolding insert
All-insert k counts [] good h = (good, tt)
All-insert k counts ((j, w) ∷ m) good (here, h) = elim (Bool-cases (j == k)) [
  | inl same ↦ rw same (good, h)
  | inr other ↦ rw other (here, All-insert k counts m good h)
]

insert-IsTidy :
    (k : String) (counts : Counts) (m : Counter)
    → AreDistinct counts
    → IsTidy m
    → IsTidy (insert k counts m)
insert-IsTidy k counts m good (h, goods) =
    (insert-AreDistinct k counts m h, All-insert k counts m good goods)

lookup-AreDistinct :
    (k : String) (counts : Counts) (m : Counter)
    → All (λ e. AreDistinct e.1) m
    → lookup k m ≡ some counts
    → AreDistinct counts
unfolding lookup
lookup-AreDistinct k counts [] h e = absurd (ground arith)
lookup-AreDistinct k counts ((j, w) ∷ m) (here, h) e = elim (Bool-cases (j == k)) [
  | inl same ↦ let equal : w ≡ counts = ground arith in subst (λ c. AreDistinct c) equal here
  | inr other ↦ lookup-AreDistinct k counts m h (ground arith)
]

pub default-IsTidy : IsTidy default_counter
unfolding lookup
default-IsTidy =
    ((refl, tt), ((refl, (refl, (refl, (refl, (refl, (refl, (refl, (refl, tt)))))))), tt))

counter_of-AreDistinct :
    (k : String) (counts : Counts) (m : Counter)
    → IsTidy m
    → counter_of k m ≡ some counts
    → AreDistinct counts
unfolding counter_of
counter_of-AreDistinct k counts m tidy e = elim (Option-cases (lookup k m)) [
  | inl missing ↦ lookup-AreDistinct k counts default_counter default-IsTidy.1 (ground arith)
  | inr (found, there) ↦ lookup-AreDistinct k counts m tidy.1 (ground arith)
]

-- An aggregation keeps a counter tidy, whatever is reported.
pub aggregate_metrics-IsTidy :
    (report : Report) (current next : Counter)
    → IsTidy current
    → aggregate_metrics report current ≡ aggregated next
    → IsTidy next
unfolding aggregate_metrics
aggregate_metrics-IsTidy [] current next tidy e =
    let equal : current ≡ next = ground arith in subst (λ c. IsTidy c) equal tidy
aggregate_metrics-IsTidy ((w, none) ∷ report) current next tidy e =
    aggregate_metrics-IsTidy report current next tidy e
aggregate_metrics-IsTidy ((w, some []) ∷ report) current next tidy e =
    elim (Option-cases (counter_of w current)) [
      | inl missing ↦ aggregate_metrics-IsTidy report current next tidy (ground arith)
      | inr (counter, found) ↦
          aggregate_metrics-IsTidy report (insert w counter current) next
            (insert-IsTidy w counter current (counter_of-AreDistinct w counter current tidy found)
              tidy)
            (ground arith)
    ]
aggregate_metrics-IsTidy ((w, some (c ∷ cs)) ∷ report) current next tidy e =
    elim (Option-cases (counter_of w current)) [
      | inl missing ↦ absurd (ground arith)
      | inr (counter, found) ↦
          let sum = add_counts (c ∷ cs) counter in
          aggregate_metrics-IsTidy report (insert w sum current) next
            (insert-IsTidy w sum current
              (add_counts-AreDistinct (c ∷ cs) counter
                (counter_of-AreDistinct w counter current tidy found))
              tidy)
            (ground arith)
    ]
