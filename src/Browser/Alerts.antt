-- ===== src/Browser/Alerts.antt =====
-- public/services: AlertsService.ts and FindingsService.ts.
use wazuh_dashboard_security.Base.{
  String, Bool, true, List, [], ◌∷◌, Option, none, some, if◌then◌else◌, ◌==◌,
}
use wazuh_dashboard_security.Json.{
  Json, undefined, bool, num, str, arr, obj, Items, Fields, object, text_array, truthy, opt, path,
  or_else, assign, set_field, fields, spread,
}
use wazuh_dashboard_security.Json.Text.{◌&◌, to_text, is_prefix}
use wazuh_dashboard_security.Server.Client.{Outcome, return, throw}
use wazuh_dashboard_security.Server.Routes.{Method}
use wazuh_dashboard_security.Browser.{
  Finished, Exchange, answer, send, Page, quietly, ask, scoped, json_body, read, error_toast,
}
use wazuh_dashboard_security.Browser.Api

-- What is left of a text that starts with a part.
after : String → String → String
after String.[] s = s
after (String.◌∷◌ c part) String.[] = ""
after (String.◌∷◌ c part) (String.◌∷◌ d s) = after part s

-- The text before and behind the first place of a part.
cut_at : String → String → Option (String × String)
unfolding is_prefix after
cut_at part String.[] = if part == "" then some ("", "") else none
cut_at part (String.◌∷◌ c s) =
    let rest = cut_at part s in
    if is_prefix part (String.◌∷◌ c s)
    then some ("", after part (String.◌∷◌ c s))
    else (elim rest [ none ↦ none | some (front, back) ↦ some (String.◌∷◌ c front, back) ])

-- text.replace(part, by), where `by` has no `$`.
unfoldable pub replace : String → String → String → String
unfolding cut_at
replace part by s = elim (cut_at part s) [ none ↦ s | some (front, back) ↦ front & by & back ]

-- params.findingIds ? params.findingIds.join(',') : undefined
unfoldable pub join_ids : Json → Json
unfolding to_text
join_ids ids = if truthy ids then str (to_text ids) else undefined

module _ (page : Page) where
  -- The part of the query that both methods for alerts share.
  base_query : Json → Json → Fields
  unfolding opt
  base_query params data_source_id = fields (
      ("sortOrder", or_else (opt params "sortOrder") (str "desc"))
      ∷ ("size", or_else (opt params "size") (num 10000))
      ∷ ("startIndex", or_else (opt params "startIndex") (num 0))
      ∷ ("dataSourceId", data_source_id)
      ∷ ("startTime", opt params "startTime")
      ∷ ("endTime", opt params "endTime")
      ∷ [])

  -- With neither a detector nor a type there is no query at all.
  unfoldable pub alerts_query : Json → Json
  unfolding base_query opt path set_field
  alerts_query params =
      let source = or_else (path params ("dataSource" ∷ "id" ∷ [])) page.data_source_id in
      if truthy (opt params "detector_id")
      then obj (set_field "detector_id" (opt params "detector_id") (base_query params source))
      else (if truthy (opt params "detectorType")
          then obj (set_field "detectorType" (opt params "detectorType") (base_query params source))
          else undefined)

  unfoldable pub get_alerts : Json → Exchange
  unfolding alerts_query
  get_alerts params = ask (record {
    method = Method.get;
    url = ".." & Api.get_alerts;
    query = alerts_query params;
    body = none;
  })

  unfoldable pub acknowledge_alerts : List String → String → Exchange
  unfolding replace
  acknowledge_alerts alert_ids detector_id = ask (record {
    method = Method.post;
    url = ".." & replace "{detector_id}" detector_id Api.acknowledge_alerts;
    query = scoped page;
    body = json_body page (object (("alerts", text_array alert_ids) ∷ []));
  })

  -- A refused request is shown, and its answer passed on.
  unfoldable pub reported : String → String → Outcome Json → Finished
  unfolding read error_toast opt
  reported action_name object_name (throw error) = quietly (throw error)
  reported action_name object_name (return res) = elim (read page res "ok") [
    | throw error ↦ quietly (throw error)
    | return ok ↦ record {
      promise = return res;
      toasts = if truthy ok then [] else error_toast page action_name object_name (opt res "error");
    }
  ]

  -- THREAT_INTEL_ENABLED guards this method, the next and get_threat_intel_findings.
  unfoldable pub get_threat_intel_alerts : Bool → Json → Exchange
  unfolding reported base_query
  get_threat_intel_alerts enabled params =
      if enabled
      then send
          (record {
            method = Method.get;
            url = ".." & Api.threat_intel_base & "/alerts";
            query = obj (base_query params page.data_source_id);
            body = none;
          })
          (reported "get" "alerts")
      else answer (
          object (
            ("ok", bool true)
            ∷ ("response", object (("total_alerts", num 0) ∷ ("alerts", arr Items.nil) ∷ []))
            ∷ []))

  unfoldable pub update_threat_intel_alerts_state : Bool → String → List String → Exchange
  unfolding to_text
  update_threat_intel_alerts_state enabled state alert_ids =
      if enabled
      then ask (record {
        method = Method.put;
        url = ".." & Api.threat_intel_base & "/alerts/status";
        query = object (
            ("dataSourceId", page.data_source_id)
            ∷ ("state", str state)
            ∷ ("alert_ids", str (to_text (text_array alert_ids)))
            ∷ []);
        body = none;
      })
      else answer (object (("ok", bool true) ∷ ("response", object []) ∷ []))

  unfoldable pub get_findings : Json → Exchange
  unfolding join_ids assign opt set_field
  get_findings params = ask (record {
    method = Method.get;
    url = ".." & Api.get_findings;
    query = obj (
        set_field "dataSourceId" page.data_source_id (
          set_field "findingIds" (join_ids (opt params "findingIds")) (
            assign (fields (("sortOrder", str "desc") ∷ ("size", num 10000) ∷ []))
              (spread params))));
    body = none;
  })

  unfoldable pub get_threat_intel_findings : Bool → Json → Exchange
  unfolding reported assign set_field
  get_threat_intel_findings enabled params =
      if enabled
      then send
          (record {
            method = Method.get;
            url = ".." & Api.threat_intel_base & "/findings/_search";
            query = obj (
                set_field "dataSourceId" page.data_source_id (
                  assign (fields (("sortOrder", str "desc") ∷ ("size", num 10000) ∷ []))
                    (spread params)));
            body = none;
          })
          (reported "get" "findings")
      else answer (
          object (
            ("ok", bool true)
            ∷ (
              "response",
              object (("total_findings", num 0) ∷ ("ioc_findings", arr Items.nil) ∷ []),
            )
            ∷ []))
