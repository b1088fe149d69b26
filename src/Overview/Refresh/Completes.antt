-- ===== src/Overview/Refresh/Completes.antt =====
-- A refresh of the overview model that runs to its end.
use wazuh_dashboard_security.Base.{
  ℕ, String, Bool, true, false, List, [], ◌∷◌, ◌++◌, ◌+◌, ◌≡◌, refl, sym, ap, ◌∙◌, if◌then◌else◌,
  Option, none, some, All, arith, append-nil, append_assoc, subst,
}
use wazuh_dashboard_security.Server.Client.{Outcome, return, throw}
use wazuh_dashboard_security.Stores.Rules.{Response, ok, not_ok}
use wazuh_dashboard_security.Overview.{
  DetectorHit, OverviewViewModel, Update, partial_update, full_update, Actor, Page,
}
use wazuh_dashboard_security.Overview.Findings.{update_findings, get_duration, duration_between}
use wazuh_dashboard_security.Overview.Refresh.{
  Step, and_next, update_results, run_steps, detectors_answered, update_detectors,
  update_threat_intel_findings, then_update, steps, on_refresh, stop_or, followed_by, call_handler,
  complete,
}
use wazuh_dashboard_security.Overview.Refresh.Frame.{
  IsFrame, Keeps, steps-Keep, update_findings-Keeps, detectors_answered-Keeps,
  update_threat_intel_findings-Keeps,
}

-- The detectors service answers, or is not there; what it refuses it says why.
abbrev pub IsAnswer : Outcome (Option (Response (List DetectorHit))) → Type 0
IsAnswer (throw error) = ⊥
IsAnswer (return (some (not_ok none))) = ⊥
IsAnswer r = Unit

-- The handler throws nothing.
abbrev pub IsQuiet : (OverviewViewModel → Outcome (Unit {0})) → Type 0
IsQuiet handler = (model : OverviewViewModel) → handler model ≡ return tt

module _ (start stop : String) where
  -- From an actor with these times the step returns.
  abbrev Runs : Step → Type 0
  Runs step = (a : Actor) → a.start_time ≡ start → a.end_time ≡ stop → (step a).0 ≡ return tt

  followed_by-Runs :
      (first next : Step) → Keeps first → Runs first → Runs next → Runs (followed_by first next)
  followed_by-Runs first next keeps h k a begins ends =
      by_result (first a) (h a begins ends) (keeps a)
    where
      by_result :
          (r : Outcome (Unit {0}) × Actor)
          → r.0 ≡ return tt
          → IsFrame a r.1
          → (and_next r next).0 ≡ return tt
      by_result (return done, b) ran f = k b (f.start ∙ begins) (f.stop ∙ ends)
      by_result (throw error, b) ran f = absurd (ground (arith, ran))

  stop_or-Runs : (aborted : Bool) (next : Step) → Runs next → Runs (stop_or aborted next)
  stop_or-Runs true next h a begins ends = refl
  stop_or-Runs false next h a begins ends = h a begins ends

  run_steps-Runs :
      (aborted : ℕ → Bool) (reads : ℕ) (ss : List Step)
      → All Keeps ss
      → All Runs ss
      → Runs (run_steps aborted reads ss)
  unfolding run_steps
  run_steps-Runs aborted reads [] keeps h = λ a begins ends. refl
  run_steps-Runs aborted reads (s ∷ ss) keeps h =
      let rest = stop_or (aborted (reads + 1)) (run_steps aborted (reads + 2) ss) in
      stop_or-Runs (aborted reads) (followed_by s rest) (
        followed_by-Runs s rest keeps.0 h.0 (
          stop_or-Runs (aborted (reads + 1)) (run_steps aborted (reads + 2) ss)
            (run_steps-Runs aborted (reads + 2) ss keeps.1 h.1)))

  update_results-Runs :
      (tag : ℕ → OverviewViewModel → Update) (place : ℕ)
      (handlers : List (OverviewViewModel → Outcome (Unit {0})))
      → All IsQuiet handlers
      → Runs (update_results tag place handlers)
  unfolding update_results
  update_results-Runs tag place [] quiet = λ a begins ends. refl
  update_results-Runs tag place (handler ∷ handlers) quiet =
      followed_by-Runs (call_handler tag place handler) (update_results tag (place + 1) handlers)
        (λ a. record { start = refl; stop = refl; progress = refl })
        (λ a begins ends. quiet.0 a.overview_view_model)
        (update_results-Runs tag (place + 1) handlers quiet.1)

  module _ (page : Page) where
    detectors_answered-Runs :
        (r : Outcome (Option (Response (List DetectorHit))))
        → IsAnswer r
        → Runs (detectors_answered page r)
    unfolding detectors_answered
    detectors_answered-Runs (return none) h = λ a begins ends. refl
    detectors_answered-Runs (return (some (ok hits))) h = λ a begins ends. refl
    detectors_answered-Runs (return (some (not_ok (some error)))) h = λ a begins ends. refl
    detectors_answered-Runs (return (some (not_ok none))) h = absurd h
    detectors_answered-Runs (throw error) h = absurd h

    update_findings-Runs :
        (from until : ℕ)
        → page.parse_date start ≡ some from
        → page.parse_date stop ≡ some until
        → Runs (update_findings page)
    unfolding update_findings
    update_findings-Runs from until first last a begins ends = rw (update_findings, duration) refl
      where
        duration : get_duration page a ≡ return (from, until)
        duration =
            ap (λ t. duration_between page (page.parse_date t) (page.parse_date a.end_time)) begins
            ∙ ap (λ t. duration_between page (page.parse_date start) (page.parse_date t)) ends
            ∙ ap (λ o. duration_between page o (page.parse_date stop)) first
            ∙ ap (duration_between page (some from)) last

    then_update-Runs :
        (step : Step)
        → Keeps step
        → Runs step
        → All IsQuiet page.partial_handlers
        → Runs (then_update page step)
    then_update-Runs step keeps h quiet =
        followed_by-Runs step (update_results partial_update 0 page.partial_handlers) keeps h
          (update_results-Runs partial_update 0 page.partial_handlers quiet)

    steps-Run :
        (from until : ℕ)
        → page.parse_date start ≡ some from
        → page.parse_date stop ≡ some until
        → IsAnswer page.get_detectors
        → All IsQuiet page.partial_handlers
        → All Runs (steps page)
    unfolding update_threat_intel_findings
    steps-Run from until first last answered quiet = (
      then_update-Runs (update_detectors page) (detectors_answered-Keeps page page.get_detectors)
          (detectors_answered-Runs page.get_detectors answered) quiet,
      (
        then_update-Runs (update_findings page) (update_findings-Keeps page)
            (update_findings-Runs from until first last) quiet,
        (
          then_update-Runs (update_threat_intel_findings page)
              (update_threat_intel_findings-Keeps page) (λ a begins ends. refl) quiet,
          tt,
        ),
      ),
    )

-- The calls of all handlers of a list, in order.
abbrev pub calls :
    (ℕ → OverviewViewModel → Update)
    → ℕ
    → List (OverviewViewModel → Outcome (Unit {0}))
    → OverviewViewModel
    → List Update
calls tag place [] model = []
calls tag place (handler ∷ handlers) model = tag place model ∷ calls tag (place + 1) handlers model

update_results-calls :
    (tag : ℕ → OverviewViewModel → Update) (place : ℕ)
    (handlers : List (OverviewViewModel → Outcome (Unit {0}))) (a : Actor)
    → All IsQuiet handlers
    → update_results tag place handlers a ≡ (
      return tt,
      record a { updates = a.updates ++ calls tag place handlers a.overview_view_model },
    )
unfolding update_results
update_results-calls tag place [] a quiet =
    ap (λ l. (return tt, record a { updates = l })) (sym (append-nil a.updates))
update_results-calls tag place (handler ∷ handlers) a quiet =
    let model = a.overview_view_model in
    let called = record a { updates = a.updates ++ tag place model ∷ [] } in
    ap (λ r. and_next (r, called) (update_results tag (place + 1) handlers)) (quiet.0 model)
    ∙ update_results-calls tag (place + 1) handlers called quiet.1
    ∙ ap (λ l. (return tt, record a { updates = l }))
        (append_assoc a.updates (tag place model ∷ []) (calls tag (place + 1) handlers model))

module _ (page : Page) where
  -- The call returned, the actor is idle, and the handlers of full results were called last.
  abbrev pub IsCompleted : Outcome (Unit {0}) × Actor → Type 0
  IsCompleted r =
      (r.0 ≡ return tt)
      × (r.1.in_progress ≡ false)
      × ((front : List Update) × (r.1.updates
            ≡ front ++ calls full_update 0 page.full_handlers r.1.overview_view_model))

module _ (page : Page) (start stop : String) (aborted : ℕ → Bool) (a : Actor) where
  last_updates : Step
  last_updates = followed_by (update_results full_update 0 page.full_handlers) complete

  last_updates-IsCompleted :
      (r : Outcome (Unit {0}) × Actor)
      → All IsQuiet page.full_handlers
      → r.0 ≡ return tt
      → IsCompleted page (and_next r last_updates)
  unfolding last_updates
  last_updates-IsCompleted (throw error, b) full ran = absurd (ground (arith, ran))
  last_updates-IsCompleted (return done, b) full ran =
      subst (λ r. IsCompleted page (and_next r complete))
        (sym (update_results-calls full_update 0 page.full_handlers b full))
        (refl, refl, (b.updates, refl))

  -- A refresh of an actor that is idle, between two dates, returns and leaves the actor idle, and
  -- it has called each handler of full results with the model that it leaves, last of all and in
  -- order; also where it is aborted. The detectors service is to answer, with a reason where it
  -- refuses, and no handler is to throw.
  pub on_refresh_completes :
      (from until : ℕ)
      → page.parse_date start ≡ some from
      → page.parse_date stop ≡ some until
      → IsAnswer page.get_detectors
      → All IsQuiet page.partial_handlers
      → All IsQuiet page.full_handlers
      → a.in_progress ≡ false
      → IsCompleted page (on_refresh page start stop aborted a)
  unfolding on_refresh last_updates
  on_refresh_completes from until first last answered partial full idle =
      let started : Actor = record a { start_time = start; end_time = stop; in_progress = true } in
      let asked : Actor = record a { start_time = start; end_time = stop } in
      let ran = run_steps aborted 0 (steps page) started in
      subst (λ b. IsCompleted page (if b then (return tt, asked) else and_next ran last_updates))
        (sym idle)
        (last_updates-IsCompleted ran full (
          run_steps-Runs start stop aborted 0 (steps page) (steps-Keep page)
            (steps-Run start stop page from until first last answered partial) started refl refl))
