-- ===== src/Stores/Tests.antt =====
-- Runs of the stores of the browser plugin.
use wazuh_dashboard_security.Base.{
  String, false, List, [], ◌∷◌, ◌++◌, ◌≡◌, ◌≢◌, refl, ◌+◌, eq_iff, map, take, drop, some, arith,
  lookup, insert,
}
use wazuh_dashboard_security.Json.{Json, str, object}
use wazuh_dashboard_security.Server.Client.{return}
use wazuh_dashboard_security.Stores.Findings.{
  findings_size, extend_finding, get_findings_per_detector,
}
use wazuh_dashboard_security.Stores.Alerts
use wazuh_dashboard_security.Stores.Findings
use wazuh_dashboard_security.Stores.Alerts.Pages as AlertPages
use wazuh_dashboard_security.Stores.Findings.Pages as FindingPages
use wazuh_dashboard_security.Stores.Findings.Pages.{get_findings_per_detector-skips}
use wazuh_dashboard_security.Stores.Alerts.{extend_alert, get_alerts_by_detector}
use wazuh_dashboard_security.Stores.Alerts.Pages.{get_alerts_by_detector_complete}
use wazuh_dashboard_security.Stores.Documents.{
  Source, Store, get_document, read_or_fetch, fetched, cached, index_of_store, open_index,
  ids_to_fetch,
}
use wazuh_dashboard_security.Stores.Documents.Cache.{
  get_document-again, get_documents-refetches, after_calls,
}

abbrev three : List Json
three =
    object (("id", str "a") ∷ [])
    ∷ object (("id", str "b") ∷ [])
    ∷ object (("id", str "c") ∷ ("detector_id", str "d0") ∷ [])
    ∷ []

get_alerts_by_detector_complete_example :
    get_alerts_by_detector (AlertPages.slices three) (λ n. false) "d1" "detector" (some 2) 4
    ≡ Alerts.resolved (map (extend_alert "d1" "detector") three)
get_alerts_by_detector_complete_example =
    get_alerts_by_detector_complete three (λ n. false) "d1" "detector" (some 2) 4 (λ n. refl)
      (λ e. ground arith) (omega arith)

get_findings_per_detector-skips_example :
    get_findings_per_detector (FindingPages.slices three) (λ n. false) (str "detector")
    ≡ Findings.resolved (
        map
          (extend_finding (str "detector"))
          (take findings_size three ++ drop (findings_size + 1) three))
get_findings_per_detector-skips_example =
    get_findings_per_detector-skips three (λ n. false) (str "detector") (λ n. refl)

abbrev texts_source : Source
texts_source = record {
  get_documents = λ index ids. return (object (("index", str index) ∷ []) ∷ []);
  stringify = λ v. "{}";
  type_error = str "TypeError";
}

abbrev empty_store : Store
empty_store = record { documents_by_index = []; requests = [] }

first_read : (get_document texts_source "logs" "1" empty_store).0 ≡ return "{}"
unfolding get_document read_or_fetch fetched cached index_of_store open_index lookup insert
first_read = refl

braces-ne-empty : ◌≢◌ {A = String} "{}" ""
braces-ne-empty e = ground (arith, eq_iff "{}" "")

get_document-again_example :
    get_document texts_source "logs" "1" (get_document texts_source "logs" "1" empty_store).1
    ≡ (return "{}", (get_document texts_source "logs" "1" empty_store).1)
get_document-again_example =
    get_document-again texts_source (λ v. braces-ne-empty) "logs" "1" "{}" empty_store first_read

get_documents-refetches_example :
    (after_calls texts_source "logs" ("1" ∷ "2" ∷ []) 2 empty_store).requests
    ≡ ("logs", "1" ∷ "2" ∷ []) ∷ ("logs", "1" ∷ "2" ∷ []) ∷ []
unfolding ids_to_fetch cached index_of_store open_index lookup insert
get_documents-refetches_example =
    get_documents-refetches texts_source "logs" ("1" ∷ "2" ∷ []) 2 empty_store
