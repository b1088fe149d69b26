-- ===== src/Overview/Refresh.antt =====
-- onRefresh of public/pages/Overview/models/OverviewViewModel.ts. `aborted` are the answers of the
-- signal, in the order in which it is asked. A call that is made while another one runs finds it in
-- progress.
pub mod Frame
pub mod Completes
pub mod Stuck
use wazuh_dashboard_security.Base.{
  ℕ, String, Bool, true, false, List, [], ◌∷◌, ◌++◌, ◌+◌, if◌then◌else◌, Option, none, some, keep,
}
use wazuh_dashboard_security.Json.{Json}
use wazuh_dashboard_security.Json.Text.{contains}
use wazuh_dashboard_security.Server.Client.{Outcome, return, throw}
use wazuh_dashboard_security.Stores.Rules.{Response, ok, not_ok}
use wazuh_dashboard_security.Overview.{
  DetectorHit, OverviewViewModel, Update, partial_update, full_update, Actor, Page, toast,
}
use wazuh_dashboard_security.Overview.Findings.{update_findings, get_duration}

abbrev pub Step : Type 0
Step = Actor → Outcome (Unit {0}) × Actor

abbrev pub threat_intel_enabled : Bool
threat_intel_enabled = false

-- What follows a call that returned.
abbrev pub and_next : Outcome (Unit {0}) × Actor → Step → Outcome (Unit {0}) × Actor
and_next (return done, a) next = next a
and_next (throw error, a) next = (throw error, a)

-- if (signal.aborted) break
abbrev pub stop_or : Bool → Step → Step
stop_or aborted next a = if aborted then (return tt, a) else next a

abbrev pub followed_by : Step → Step → Step
followed_by first next a = and_next (first a) next

abbrev pub call_handler :
    (ℕ → OverviewViewModel → Update) → ℕ → (OverviewViewModel → Outcome (Unit {0})) → Step
call_handler tag place handler a = (
  handler a.overview_view_model,
  record a { updates = a.updates ++ tag place a.overview_view_model ∷ [] },
)

-- handlers.forEach, from the handler at a place of the list; one that throws ends it.
unfoldable pub update_results :
    (ℕ → OverviewViewModel → Update) → ℕ → List (OverviewViewModel → Outcome (Unit {0})) → Step
update_results tag place [] = λ a. (return tt, a)
update_results tag place (handler ∷ handlers) =
    followed_by (call_handler tag place handler) (update_results tag (place + 1) handlers)

abbrev pub complete : Step
complete a = (return tt, record a { in_progress = false })

-- The signal is asked before and after each step.
unfoldable pub run_steps : (ℕ → Bool) → ℕ → List Step → Step
run_steps aborted reads [] = λ a. (return tt, a)
run_steps aborted reads (step ∷ steps) =
    stop_or (aborted reads)
      (followed_by step (stop_or (aborted (reads + 1)) (run_steps aborted (reads + 2) steps)))

module _ (page : Page) where
  unfoldable pub detectors_answered : Outcome (Option (Response (List DetectorHit))) → Step
  unfolding contains
  detectors_answered (throw error) a = (throw error, a)
  detectors_answered (return none) a = (return tt, toast "detectors" a)
  detectors_answered (return (some (ok hits))) a = (
    return tt,
    record a { overview_view_model = record (a.overview_view_model) { detectors = hits } },
  )
  detectors_answered (return (some (not_ok none))) a = (throw page.type_error, a)
  detectors_answered (return (some (not_ok (some error)))) a =
      (return tt, if contains "no such index" error then a else toast "detectors" a)

  abbrev pub update_detectors : Step
  update_detectors a = detectors_answered page.get_detectors a

  abbrev pub set_threat_intel : List Json → Actor → Actor
  set_threat_intel findings a = record a {
    overview_view_model = record (a.overview_view_model) { threat_intel_findings = findings };
  }

  -- filterChartDataByTime(tIFindings, 'timestamp')
  abbrev pub in_window : Actor → List Json → List Json
  in_window a findings =
      keep (λ f. page.is_between a.start_time a.end_time (page.timestamp_of f)) findings

  unfoldable pub update_threat_intel_findings : Step
  update_threat_intel_findings a =
      if threat_intel_enabled
      then elim (get_duration page a) as (λ _. Outcome (Unit {0}) × Actor) [
        | throw error ↦ (throw error, a)
        | return duration ↦ (
          return tt,
          elim (page.threat_intel_findings duration.0 duration.1) as (λ _. Actor) [
            | throw error ↦ set_threat_intel [] (toast "threat intel findings" a)
            | return findings ↦ set_threat_intel (in_window a findings) a
          ],
        )
      ]
      else (return tt, set_threat_intel [] a)

  -- A step of the refresh, after which the handlers of partial results are called.
  abbrev pub then_update : Step → Step
  then_update step = followed_by step (update_results partial_update 0 page.partial_handlers)

  abbrev pub steps : List Step
  steps =
      then_update update_detectors
      ∷ then_update (update_findings page)
      ∷ then_update update_threat_intel_findings
      ∷ []

  unfoldable pub on_refresh : String → String → (ℕ → Bool) → Step
  unfolding run_steps update_results detectors_answered update_threat_intel_findings update_findings
  on_refresh start stop aborted a =
      let asked : Actor = record a { start_time = start; end_time = stop } in
      if a.in_progress
      then (return tt, asked)
      else followed_by (run_steps aborted 0 steps)
          (followed_by (update_results full_update 0 page.full_handlers) complete)
          (record asked { in_progress = true })
