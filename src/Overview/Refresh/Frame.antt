-- ===== src/Overview/Refresh/Frame.antt =====
-- What the steps of a refresh leave as it is.
use wazuh_dashboard_security.Base.{
  ℕ, String, Bool, true, false, List, [], ◌∷◌, ◌+◌, ◌≡◌, refl, ◌∙◌, if◌then◌else◌, Option, none,
  some, All, Dict, values,
}
use wazuh_dashboard_security.Json.Text.{contains}
use wazuh_dashboard_security.Server.Client.{Outcome, return, throw}
use wazuh_dashboard_security.Stores.Rules.{Response, ok, not_ok}
use wazuh_dashboard_security.Overview.{
  DetectorHit, OverviewViewModel, Update, partial_update, Actor, Page, toast, RuleSource,
}
use wazuh_dashboard_security.Overview.Findings.{
  collect, detector_info, Collected, update_findings, get_duration, get_rules, rules_by_id,
  show_collected, report_failed,
}
use wazuh_dashboard_security.Overview.Refresh.{
  Step, and_next, update_results, run_steps, detectors_answered, update_detectors,
  update_threat_intel_findings, then_update, steps, stop_or, followed_by, call_handler,
}

-- The times and the state of the refresh are the same.
pub record IsFrame (before after : Actor) : Type 0 where
  pub start : after.start_time ≡ before.start_time
  pub stop : after.end_time ≡ before.end_time
  pub progress : after.in_progress ≡ before.in_progress

pub IsFrame-same : (a : Actor) → IsFrame a a
IsFrame-same a = record { start = refl; stop = refl; progress = refl }

pub IsFrame-trans : {a b c : Actor} → IsFrame a b → IsFrame b c → IsFrame a c
IsFrame-trans f g = record {
  start = g.start ∙ f.start;
  stop = g.stop ∙ f.stop;
  progress = g.progress ∙ f.progress;
}

abbrev pub Keeps : Step → Type 0
Keeps step = (a : Actor) → IsFrame a (step a).1

IsFrame-if : (b : Bool) (a x y : Actor) → IsFrame a x → IsFrame a y → IsFrame a (if b then x else y)
IsFrame-if true a x y f g = f
IsFrame-if false a x y f g = g

pub followed_by-Keeps :
    (first next : Step) → Keeps first → Keeps next → Keeps (followed_by first next)
followed_by-Keeps first next h k a = by_result (first a) (h a)
  where
    by_result : (r : Outcome (Unit {0}) × Actor) → IsFrame a r.1 → IsFrame a (and_next r next).1
    by_result (return done, b) f = IsFrame-trans f (k b)
    by_result (throw error, b) f = f

pub stop_or-Keeps : (aborted : Bool) (next : Step) → Keeps next → Keeps (stop_or aborted next)
stop_or-Keeps true next k a = IsFrame-same a
stop_or-Keeps false next k a = k a

pub run_steps-Keeps :
    (aborted : ℕ → Bool) (reads : ℕ) (ss : List Step)
    → All Keeps ss
    → Keeps (run_steps aborted reads ss)
unfolding run_steps
run_steps-Keeps aborted reads [] h = IsFrame-same
run_steps-Keeps aborted reads (s ∷ ss) h = stop_or-Keeps (aborted reads) _ (
    followed_by-Keeps s (stop_or (aborted (reads + 1)) (run_steps aborted (reads + 2) ss)) h.0 (
      stop_or-Keeps (aborted (reads + 1)) (run_steps aborted (reads + 2) ss)
        (run_steps-Keeps aborted (reads + 2) ss h.1)))

pub update_results-Keeps :
    (tag : ℕ → OverviewViewModel → Update) (place : ℕ)
    (handlers : List (OverviewViewModel → Outcome (Unit {0})))
    → Keeps (update_results tag place handlers)
unfolding update_results
update_results-Keeps tag place [] = IsFrame-same
update_results-Keeps tag place (handler ∷ handlers) =
    followed_by-Keeps (call_handler tag place handler) (update_results tag (place + 1) handlers)
      (λ a. record { start = refl; stop = refl; progress = refl })
      (update_results-Keeps tag (place + 1) handlers)

module _ (page : Page) where
  report_failed-IsFrame : (failed : Bool) (a : Actor) → IsFrame a (report_failed page failed a)
  report_failed-IsFrame failed a =
      IsFrame-if failed a (toast "findings" a) a
        (record { start = refl; stop = refl; progress = refl }) (IsFrame-same a)

  get_rules-IsFrame : (ids : List String) (a : Actor) → IsFrame a (get_rules page ids a).1
  unfolding get_rules
  get_rules-IsFrame ids a = by_answer (rules_by_id page ids)
    where
      by_answer :
          (r : Outcome (Dict RuleSource))
          → IsFrame a
              (elim r as (λ _. Dict RuleSource × Actor) [
                | return rules ↦ (rules, a)
                | throw error ↦ ([], toast "rules" a)
              ]).1
      by_answer (return rules) = IsFrame-same a
      by_answer (throw error) = record { start = refl; stop = refl; progress = refl }

  show_collected-IsFrame : (c : Collected page) (a : Actor) → IsFrame a (show_collected page c a)
  unfolding show_collected
  show_collected-IsFrame c a =
      let f =
        IsFrame-trans (report_failed-IsFrame c.failed a)
          (get_rules-IsFrame c.rule_ids (report_failed page c.failed a)) in
      record { start = f.start; stop = f.stop; progress = f.progress }

  pub update_findings-Keeps : Keeps (update_findings page)
  unfolding update_findings
  update_findings-Keeps a = by_duration (get_duration page a)
    where
      collected : ℕ × ℕ → Collected page
      collected d =
          collect page d.0 d.1 (values (detector_info [] a.overview_view_model.detectors)) [] []

      by_duration :
          (r : Outcome (ℕ × ℕ))
          → IsFrame a
              (elim r as (λ _. Outcome (Unit {0}) × Actor) [
                | throw error ↦ (throw error, a)
                | return d ↦ (return tt, show_collected page (collected d) a)
              ]).1
      by_duration (return d) = show_collected-IsFrame (collected d) a
      by_duration (throw error) = IsFrame-same a

  pub detectors_answered-Keeps :
      (r : Outcome (Option (Response (List DetectorHit)))) → Keeps (detectors_answered page r)
  unfolding detectors_answered
  detectors_answered-Keeps (throw error) a = IsFrame-same a
  detectors_answered-Keeps (return none) a = record { start = refl; stop = refl; progress = refl }
  detectors_answered-Keeps (return (some (ok hits))) a = record {
    start = refl;
    stop = refl;
    progress = refl;
  }
  detectors_answered-Keeps (return (some (not_ok none))) a = IsFrame-same a
  detectors_answered-Keeps (return (some (not_ok (some error)))) a =
      IsFrame-if (contains "no such index" error) a a (toast "detectors" a) (IsFrame-same a)
        (record { start = refl; stop = refl; progress = refl })

  pub update_threat_intel_findings-Keeps : Keeps (update_threat_intel_findings page)
  unfolding update_threat_intel_findings
  update_threat_intel_findings-Keeps a = record { start = refl; stop = refl; progress = refl }

  pub then_update-Keeps : (step : Step) → Keeps step → Keeps (then_update page step)
  then_update-Keeps step k =
      followed_by-Keeps step (update_results partial_update 0 page.partial_handlers) k
        (update_results-Keeps partial_update 0 page.partial_handlers)

  pub steps-Keep : All Keeps (steps page)
  steps-Keep = (
    then_update-Keeps (update_detectors page) (detectors_answered-Keeps page.get_detectors),
    (
      then_update-Keeps (update_findings page) update_findings-Keeps,
      (
        then_update-Keeps (update_threat_intel_findings page) update_threat_intel_findings-Keeps,
        tt,
      ),
    ),
  )
