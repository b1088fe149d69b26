-- ===== src/Overview/Tests.antt =====
-- Refreshes of the overview model.
use wazuh_dashboard_security.Base.{ℕ, Bool, true, false, List, [], ◌∷◌, ◌≡◌, refl, some}
use wazuh_dashboard_security.Json.{str}
use wazuh_dashboard_security.Server.Client.{return, throw}
use wazuh_dashboard_security.Stores.Rules.{ok}
use wazuh_dashboard_security.Overview.{DetectorHit, Finding, Actor, Page}
use wazuh_dashboard_security.Overview.Findings.{collect}
use wazuh_dashboard_security.Overview.Findings.RuleIds.{AreCovered, collect-covers}
use wazuh_dashboard_security.Overview.Refresh.{on_refresh}
use wazuh_dashboard_security.Overview.Refresh.Completes.{IsCompleted, on_refresh_completes}
use wazuh_dashboard_security.Overview.Refresh.Stuck.{
  Call, refresh_all, IsUntouched, on_refresh_stuck,
}

abbrev detector : DetectorHit
detector = record { id = "d1"; detector_type = "linux"; name = "logins" }

abbrev finding : Finding
finding = record {
  id = "f1";
  queries = "threat_intel_1" ∷ "r1" ∷ [];
  timestamp = 61;
  detection_type = "Rules, Threat intelligence";
}

abbrev page : Page
page = record {
  get_detectors = return (some (ok (detector ∷ [])));
  findings_per_detector = λ d start stop. return (finding ∷ []);
  custom_rules = λ ids. return [];
  pre_packaged_rules = λ ids. return [];
  threat_intel_findings = λ start stop. return [];
  parse_date = λ text. some 60;
  to_minute = λ time. 60;
  is_between = λ start stop time. true;
  timestamp_of = λ v. 0;
  partial_handlers = (λ model. return tt) ∷ [];
  full_handlers = (λ model. return tt) ∷ [];
  type_error = str "TypeError";
}

abbrev idle : Actor
idle = record {
  overview_view_model = record { detectors = []; findings = []; threat_intel_findings = [] };
  in_progress = false;
  start_time = "";
  end_time = "";
  notices = [];
  updates = [];
}

abbrev signal : ℕ → Bool
signal reads = false

on_refresh_completes_example : IsCompleted page (on_refresh page "now-1h" "now" signal idle)
on_refresh_completes_example =
    on_refresh_completes page "now-1h" "now" signal idle 60 60 refl refl tt (λ model. refl, tt)
      (λ model. refl, tt) refl

abbrev offline : Page
offline = record page { get_detectors = throw (str "no connection") }

offline_throws : (on_refresh offline "now-1h" "now" signal idle).0 ≡ throw (str "no connection")
unfolding on_refresh
offline_throws = refl

abbrev later : List Call
later = record { page = page; start = "now-2h"; stop = "now"; aborted = signal } ∷ []

on_refresh_stuck_example :
    IsUntouched
      (on_refresh offline "now-1h" "now" signal idle).1
      (refresh_all later (on_refresh offline "now-1h" "now" signal idle).1)
on_refresh_stuck_example =
    on_refresh_stuck offline "now-1h" "now" signal idle (str "no connection") later offline_throws

collect-covers_example :
    AreCovered page
      (collect page 0 60 (detector ∷ []) [] []).rule_ids
      (collect page 0 60 (detector ∷ []) [] []).collected_items
collect-covers_example = collect-covers page 0 60 (detector ∷ [])
