-- ===== src/Server/Routes/Tests.antt =====
-- Requests on the routes of the server.
use wazuh_dashboard_security.Base.{
  String, Bool, true, false, List, none, [], ◌∷◌, ◌≡◌, ◌≤◌, ◌==◌, refl, subst, length,
}
use wazuh_dashboard_security.Json.{
  Json, str, Fields, end, field, object, array, obj, opt, get_field,
}
use wazuh_dashboard_security.Server.Client.{Outcome, return, throw, Host, Request}
use wazuh_dashboard_security.Server.Safe.{OnThrow, IsTotal}
use wazuh_dashboard_security.Server.FindingRequests.{labelled}
use wazuh_dashboard_security.Server.FindingRequests.Labels.{queries, labelled_field, labelled-types}
use wazuh_dashboard_security.Server.Routes.{ClientHandler, Server, run, get}
use wazuh_dashboard_security.Server.Routes.Table.{routes}
use wazuh_dashboard_security.Server.Routes.Replies.{ServerIsRegular, run-IsTotal}
use wazuh_dashboard_security.Server.Routes.Matching.{fitting, routes-fit_once}

abbrev timeout : Json
timeout = object (("message", str "timeout") ∷ [])

abbrev answer : Bool → Outcome Json
answer true = return (object [])
answer false = throw timeout

-- A cluster that answers searches only.
abbrev cluster : Host
cluster = record { client = λ calls c. answer (c.method == "search"); type_error = timeout }

answer-OnThrow : (b : Bool) → OnThrow (answer b)
answer-OnThrow true = tt
answer-OnThrow false = refl

abbrev server : Server
server = record {
  data_source_enabled = true;
  host = cluster;
  yaml = record { parse = λ v. return v; print = λ doc. return (object doc) };
  stringify = λ v. str "json";
  lodash_get = opt;
  load = λ text. return text;
}

server-ServerIsRegular : ServerIsRegular server
server-ServerIsRegular = record {
  host = record {
    rejections = λ calls c error e. subst OnThrow e (answer-OnThrow (c.method == "search"));
    type_errors = refl;
  };
  yaml = record {
    parse_errors = λ v error e. subst OnThrow e tt;
    print_errors = λ doc error e. subst OnThrow e tt;
  };
  load = λ text error e. subst OnThrow e tt;
}

abbrev request : Request
request = record { params = object []; query = object []; body = object [] }

run-IsTotal_example : IsTotal (run server ClientHandler.on_get_detector request)
run-IsTotal_example =
    run-IsTotal server server-ServerIsRegular ClientHandler.on_get_detector request refl

routes-fit_once_example : length (fitting get ("_wazuh" ∷ "unknown" ∷ []) routes) ≤ 1
routes-fit_once_example = routes-fit_once get ("_wazuh" ∷ "unknown" ∷ [])

abbrev found : List (String × Fields)
found =
    ("threat_intel_1", field "name" (str "n") (field "id" (str "threat_intel_1") end))
    ∷ ("r1", field "id" (str "r1") end)
    ∷ []

labelled-types_example :
    (v : Json) × (labelled cluster
        (obj (field "queries" (array (queries found)) end))
        (record { calls = []; caps = none })
      ≡ (return v, record { calls = []; caps = none }))
    × (opt v "ruleSeverity"
        ≡ labelled_field found (field "queries" (array (queries found)) end) "ruleSeverity")
unfolding get_field
labelled-types_example =
    labelled-types cluster (field "queries" (array (queries found)) end) found
      (record { calls = []; caps = none }) "ruleSeverity" (refl, (refl, tt)) refl
