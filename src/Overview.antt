-- ===== src/Overview.antt =====
-- public/pages/Overview: the model of the overview page. What its actor calls is a parameter: the
-- detectors service, the stores of findings and rules, dates, and the handlers of a page. A call of
-- errorNotificationToast is recorded by the object that could not be retrieved.
pub mod Findings
pub mod Refresh
mod Tests
use wazuh_dashboard_security.Base.{
  ℕ, String, Bool, true, false, not, List, [], ◌∷◌, ◌++◌, Option, none, some,
}
use wazuh_dashboard_security.Json.{Json}
use wazuh_dashboard_security.Json.Text.{is_prefix}
use wazuh_dashboard_security.Server.Client.{Outcome}
use wazuh_dashboard_security.Stores.Rules.{Response}

pub record DetectorHit : Type 0 where
  pub id : String
  pub detector_type : String
  pub name : String

pub record Finding : Type 0 where
  pub id : String
  pub queries : List String
  pub timestamp : ℕ
  pub detection_type : String

-- The level and the title of a rule, where it has them.
pub record RuleSource : Type 0 where
  pub level : String
  pub title : String

pub record RuleHit : Type 0 where
  pub id : String
  pub source : RuleSource

pub record OverviewFindingItem : Type 0 where
  pub id : String
  pub time : ℕ
  pub finding_name : String
  pub detector : String
  pub log_type : String
  pub rule_id : String
  pub rule_name : String
  pub rule_severity : String
  pub is_threat_intel_only_finding : Bool

pub record OverviewViewModel : Type 0 where
  pub detectors : List DetectorHit
  pub findings : List OverviewFindingItem
  pub threat_intel_findings : List Json

-- A handler that was called, by its place in its list, with the model that it was given.
pub data Update : Type 0 where
  partial_update full_update : ℕ → OverviewViewModel → Update

-- The fields of the actor, the notices given, and the handlers called.
pub record Actor : Type 0 where
  pub overview_view_model : OverviewViewModel
  pub in_progress : Bool
  pub start_time : String
  pub end_time : String
  pub notices : List String
  pub updates : List Update

-- The answers during one refresh. A detectors service that is not there answers nothing.
pub record Page : Type 0 where
  pub get_detectors : Outcome (Option (Response (List DetectorHit)))
  pub findings_per_detector : DetectorHit → ℕ → ℕ → Outcome (List Finding)
  pub custom_rules : List String → Outcome (List RuleHit)
  pub pre_packaged_rules : List String → Outcome (List RuleHit)
  pub threat_intel_findings : ℕ → ℕ → Outcome (List Json)
  -- dateMath.parse(text)?.valueOf(), the time without seconds, and whether a time lies in between.
  pub parse_date : String → Option ℕ
  pub to_minute : ℕ → ℕ
  pub is_between : String → String → ℕ → Bool
  pub timestamp_of : Json → ℕ
  pub partial_handlers : List (OverviewViewModel → Outcome (Unit {0}))
  pub full_handlers : List (OverviewViewModel → Outcome (Unit {0}))
  pub type_error : Json

abbrev pub toast : String → Actor → Actor
toast name a = record a { notices = a.notices ++ name ∷ [] }
