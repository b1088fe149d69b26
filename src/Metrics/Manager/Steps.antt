-- ===== src/Metrics/Manager/Steps.antt =====
-- What DetectorMetricsManager reports of the steps that it is sent.
use wazuh_dashboard_security.Base.{
  ℕ, ◌<◌, ◌≤◌, ◌+◌, String, Bool, true, false, not, ◌&&◌, ◌||◌, List, [], ◌∷◌, ◌≡◌, refl, ap, ◌⊎◌,
  nat_eq, nat_eq_iff, if◌then◌else◌, arith, Bool-cases, inl, inr, Option, none, some,
}
use wazuh_dashboard_security.Metrics.Manager.{
  Step, not_started, started, source_selected, log_type_configured, rules_configured,
  field_mappings_configured, threat_intel_configured, step_two_initiated, trigger_configured,
  create_clicked, step_value, metric_emitted_for_step, send_metrics, initial_checkpoint,
  counter_name,
}
use wazuh_dashboard_security.Metrics.Manager.Masks.{has, with_step, with_step_lem}

abbrev is_started : Step → Bool
is_started step = nat_eq (step_value step) (step_value started)

-- What is answered, over the results of the three tests.
abbrev decided : Bool → Bool → Bool → Step → Option String → ℕ → Option String × ℕ
decided first begun done step name mask =
    if not first && not begun
    then (none, mask)
    else (if done then (none, mask) else (some (counter_name name step), with_step mask step))

abbrev SendCases : Bool → Bool → Bool → Step → Option String → ℕ → Option String × ℕ → Type 0
SendCases first begun done step name mask answer =
    ((answer ≡ (none, mask)) × ((done ≡ true) ⊎ ((begun ≡ false) × (first ≡ false))))
    ⊎ ((done ≡ false) × (answer ≡ (some (counter_name name step), with_step mask step)))

send_metrics-cases :
    (step : Step) (name : Option String) (mask : ℕ)
    → SendCases
        (is_started step)
        (has mask started)
        (has mask step)
        step
        name
        mask
        (send_metrics step name mask)
unfolding send_metrics
send_metrics-cases step name mask = go (is_started step) (has mask started) (has mask step)
  where
    go :
        (first begun done : Bool)
        → SendCases first begun done step name mask (decided first begun done step name mask)
    go false false done = inl (refl, inr (refl, refl))
    go false true true = inl (refl, inl refl)
    go false true false = inr (refl, refl)
    go true begun true = inl (refl, inl refl)
    go true begun false = inr (refl, refl)

abbrev pub Sends : Type 0
Sends = List (Step × Option String)

-- The steps that are reported, of those that are sent with no reset between them.
abbrev pub next_report : Step → Option String → List Step → List Step
next_report step none reports = reports
next_report step (some metric) reports = step ∷ reports

abbrev pub reported_steps : Sends → ℕ → List Step
reported_steps [] mask = []
reported_steps ((step, name) ∷ sends) mask =
    next_report step (send_metrics step name mask).0
      (reported_steps sends (send_metrics step name mask).1)

abbrev pub times : Step → List Step → ℕ
times k [] = 0
times k (step ∷ steps) = (if nat_eq (step_value step) (step_value k) then 1 else 0) + times k steps

abbrev pub sends_step : Step → Sends → Bool
sends_step k [] = false
sends_step k ((step, name) ∷ sends) = nat_eq (step_value step) (step_value k) || sends_step k sends

has-same :
    (mask : ℕ) (step k : Step)
    → nat_eq (step_value step) (step_value k) ≡ true
    → has mask step ≡ has mask k
has-same mask step k e = ap (metric_emitted_for_step mask) ((nat_eq_iff _ _).0 e)

reported_steps-head :
    (step : Step) (name out : Option String) (sends : Sends) (mask next : ℕ)
    → send_metrics step name mask ≡ (out, next)
    → reported_steps ((step, name) ∷ sends) mask ≡ next_report step out (reported_steps sends next)
reported_steps-head step name out sends mask next e =
    ap (λ r. next_report step r.0 (reported_steps sends r.1)) e

times-reported_steps :
    (k : Step) (sends : Sends) (mask : ℕ)
    → mask < 512
    → times k (reported_steps sends mask) ≤ (if has mask k then 0 else 1)
times-reported_steps k [] mask low = omega arith
times-reported_steps k ((step, name) ∷ sends) mask low = elim (send_metrics-cases step name mask) [
  | inl (silent, why) ↦
      rw (reported_steps-head step name none sends mask mask silent)
        (times-reported_steps k sends mask low)
  | inr (fresh, sent) ↦
      let (below, now, kept, new) = with_step_lem mask step k low in
      rw (reported_steps-head step name _ sends mask _ sent) (
        ground (
          arith,
          times-reported_steps k sends (with_step mask step) below,
          has-same mask step k,
          has-same (with_step mask step) step k,
          kept,
        ))
]

reported_steps-sent :
    (k : Step) (sends : Sends) (mask : ℕ)
    → mask < 512
    → has mask started ≡ true
    → has mask k ≡ false
    → sends_step k sends ≡ true
    → 1 ≤ times k (reported_steps sends mask)
reported_steps-sent k [] mask low begun fresh asked = absurd (ground arith)
reported_steps-sent k ((step, name) ∷ sends) mask low begun fresh asked =
    elim (send_metrics-cases step name mask) [
      | inl (silent, why) ↦ rw (reported_steps-head step name none sends mask mask silent) (
          reported_steps-sent k sends mask low begun fresh
            (ground (arith, has-same mask step k, why)))
      | inr (free, sent) ↦
          let (below, now, kept, new) = with_step_lem mask step k low in
          let still = (with_step_lem mask step started low).2 begun in
          rw (reported_steps-head step name _ sends mask _ sent)
            (elim (Bool-cases (nat_eq (step_value step) (step_value k))) [
              | inl same ↦ ground arith
              | inr other ↦ ground (
                arith,
                reported_steps-sent k sends (with_step mask step) below still (new fresh other)
                    (ground arith),
              )
            ])
    ]

-- The mask after the first step.
has_started :
    (k : Step) → has 1 k ≡ nat_eq (step_value started) (step_value k) || nat_eq (step_value k) 0
unfolding metric_emitted_for_step
has_started not_started = refl
has_started started = refl
has_started source_selected = refl
has_started log_type_configured = refl
has_started rules_configured = refl
has_started field_mappings_configured = refl
has_started threat_intel_configured = refl
has_started step_two_initiated = refl
has_started trigger_configured = refl
has_started create_clicked = refl

-- No step is reported twice with no reset between: from the initial mask, whatever is sent.
pub reported_steps-once :
    (k : Step) (sends : Sends) → times k (reported_steps sends initial_checkpoint) ≤ 1
reported_steps-once k sends =
    ground (arith, times-reported_steps k sends initial_checkpoint (omega arith))

-- Once the creation has started, each step that is sent, and has a bit of the mask, is reported
-- exactly once, however often it is sent.
pub reported_steps-exact :
    (k : Step) (name : Option String) (sends : Sends)
    → nat_eq (step_value k) 0 ≡ false
    → sends_step k ((started, name) ∷ sends) ≡ true
    → times k (reported_steps ((started, name) ∷ sends) initial_checkpoint) ≡ 1
unfolding send_metrics metric_emitted_for_step
reported_steps-exact k name sends bit asked =
    elim (Bool-cases (nat_eq (step_value started) (step_value k))) [
      | inl same ↦ ground (arith, has_started k, times-reported_steps k sends 1 (omega arith))
      | inr other ↦ ground (
        arith,
        has_started k,
        times-reported_steps k sends 1 (omega arith),
        reported_steps-sent k sends 1 (omega arith) refl,
      )
    ]

-- Nothing is reported before the creation has started: the first report, if any, is of that step.
pub reported_steps-start :
    (sends : Sends)
    → (reported_steps sends initial_checkpoint ≡ [])
      ⊎ ((rest : List Step) × (reported_steps sends initial_checkpoint ≡ started ∷ rest))
unfolding send_metrics metric_emitted_for_step
reported_steps-start [] = inl refl
reported_steps-start ((started, name) ∷ sends) = inr (_, refl)
reported_steps-start ((not_started, name) ∷ sends) = reported_steps-start sends
reported_steps-start ((source_selected, name) ∷ sends) = reported_steps-start sends
reported_steps-start ((log_type_configured, name) ∷ sends) = reported_steps-start sends
reported_steps-start ((rules_configured, name) ∷ sends) = reported_steps-start sends
reported_steps-start ((field_mappings_configured, name) ∷ sends) = reported_steps-start sends
reported_steps-start ((threat_intel_configured, name) ∷ sends) = reported_steps-start sends
reported_steps-start ((step_two_initiated, name) ∷ sends) = reported_steps-start sends
reported_steps-start ((trigger_configured, name) ∷ sends) = reported_steps-start sends
reported_steps-start ((create_clicked, name) ∷ sends) = reported_steps-start sends
