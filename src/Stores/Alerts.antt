-- ===== src/Stores/Alerts.antt =====
-- public/store/AlertsStore.ts: the alerts of a detector and those of threat intelligence, page by
-- page. The service is a parameter: what it answers from a start index. `aborted n` is what the
-- n-th read of `signal.aborted` gives.
pub mod Pages
use wazuh_dashboard_security.Base.{
  ℕ, zero, suc, ◌+◌, String, Bool, List, [], ◌++◌, map, Option, none, some, if◌then◌else◌, nat_eq,
  length,
}
use wazuh_dashboard_security.Json.{Json, Fields, str, obj, truthy, opt, set_field, spread}

-- The answer to getAlerts: alerts, `ok: false`, or a rejected promise.
pub data Answer : Type 0 where
  alerts : List Json → Answer
  refused : Answer
  rejected : Answer

-- The promise of a method, and a loop that has used up its rounds.
pub data Fetched : Type 0 where
  resolved : List Json → Fetched
  failed : Fetched
  out_of_fuel : Fetched

-- if (!alert.detector_id) { alert.detector_id = detectorId; } return { ...alert, detectorName };
unfoldable pub extend_alert : String → String → Json → Json
unfolding opt set_field
extend_alert detector_id detector_name alert =
    let source = spread alert in
    let identified : Fields =
      if truthy (opt alert "detector_id")
      then source
      else set_field "detector_id" (str detector_id) source in
    obj (set_field "detectorName" (str detector_name) identified)

-- The do-while loop of getAlertsByDetector and getThreatIntelAlerts; `extend` is what is done to
-- the alerts of a page, and `most` the number of alerts asked for.
unfoldable pub fetch_alerts :
    (service : ℕ → Answer) (aborted : ℕ → Bool) (extend : Json → Json) (most fuel reads start : ℕ)
    (found : List Json)
    → Fetched
fetch_alerts service aborted extend most zero reads start found = out_of_fuel
fetch_alerts service aborted extend most (suc fuel) reads start found =
    if aborted reads then resolved found else (elim (service start) [
      | rejected ↦ failed
      | refused ↦
          let again = fetch_alerts service aborted extend most fuel (reads + 2) start found in
          if aborted (reads + 1)
          then resolved found
          else (if nat_eq 0 most then again else resolved found)
      | alerts page ↦
          let all = found ++ map extend page in
          let again =
            fetch_alerts service aborted extend most fuel (reads + 2) (start + length page) all in
          if aborted (reads + 1)
          then resolved found
          else (if nat_eq (length page) most then again else resolved all)
    ])

abbrev pub default_alert_count : ℕ
default_alert_count = 10000

-- alertCount ?? 10000
unfoldable pub get_alerts_by_detector :
    (service : ℕ → ℕ → Answer) (aborted : ℕ → Bool) (detector_id detector_name : String)
    (alert_count : Option ℕ) (fuel : ℕ)
    → Fetched
unfolding fetch_alerts
get_alerts_by_detector service aborted detector_id detector_name alert_count fuel =
    let most : ℕ = elim alert_count [ none ↦ default_alert_count | some n ↦ n ] in
    fetch_alerts (service most) aborted (extend_alert detector_id detector_name) most fuel 0 0 []

-- THREAT_INTEL_ENABLED guards the method; the alerts are taken as they are.
unfoldable pub get_threat_intel_alerts :
    (enabled : Bool) (service : ℕ → ℕ → Answer) (aborted : ℕ → Bool) (fuel : ℕ) → Fetched
unfolding fetch_alerts
get_threat_intel_alerts enabled service aborted fuel =
    if enabled
    then fetch_alerts (service default_alert_count) aborted (λ alert. alert) default_alert_count
        fuel 0 0 []
    else resolved []

-- One request, of 25 alerts if no number is given.
unfoldable pub get_alerts_for_threat_alerts_card :
    (service : ℕ → ℕ → Answer) (detector_id detector_name : String) (alert_count : Option ℕ)
    → Fetched
get_alerts_for_threat_alerts_card service detector_id detector_name alert_count =
    let most : ℕ = elim alert_count [ none ↦ 25 | some n ↦ n ] in
    elim (service most 0) [
      | alerts page ↦ resolved (map (extend_alert detector_id detector_name) page)
      | refused ↦ resolved []
      | rejected ↦ failed
    ]
