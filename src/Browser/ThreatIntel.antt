-- ===== src/Browser/ThreatIntel.antt =====
-- public/services/ThreatIntelService.ts: the requests, and the notices that it shows.
use wazuh_dashboard_security.Base.{String, Bool, true, not, [], ◌∷◌, none, if◌then◌else◌, any}
use wazuh_dashboard_security.Json.{
  at_zero, Json, undefined, null, str, arr, obj, Fields, object, is_nullish, elems, truthy, opt,
  fields, assign, spread, same_value,
}
use wazuh_dashboard_security.Json.Text.{◌&◌, contains}
use wazuh_dashboard_security.Server.Client.{Outcome, return, throw}
use wazuh_dashboard_security.Server.Routes.{Method}
use wazuh_dashboard_security.Browser.{
  Finished, Exchange, send, Page, quietly, scoped, json_body, read, error_toast, success_toast,
  ◌>>=◌,
}
use wazuh_dashboard_security.Browser.Api
use wazuh_dashboard_security.Browser.Alerts.{reported}

abbrev match_all : Json
match_all = object (("query", object (("match_all", object []) ∷ [])) ∷ [])

module _ (page : Page) where
  -- A failure is shown with its reason, a success with its default text.
  unfoldable pub notified : (failing object_name done_name : String) → Outcome Json → Finished
  unfolding read opt error_toast success_toast
  notified failing object_name done_name (throw error) = quietly (throw error)
  notified failing object_name done_name (return res) = elim (read page res "ok") [
    | throw error ↦ quietly (throw error)
    | return ok ↦ record {
      promise = return res;
      toasts =
          if truthy ok
          then success_toast done_name object_name
          else error_toast page failing object_name (opt res "error");
    }
  ]

  -- v.includes(text), of a text or an array.
  unfoldable pub includes : Json → String → Outcome Bool
  unfolding contains same_value
  includes (str s) text = return (contains text s)
  includes (arr vs) text = return (any (same_value (str text)) (elems vs))
  includes _ text = throw page.type_error

  -- !v?.includes(text): true of what is missing.
  unfoldable pub lacks : Json → String → Outcome Bool
  unfolding includes
  lacks undefined text = return true
  lacks null text = return true
  lacks v text = elim (includes v text) [ throw error ↦ throw error | return b ↦ return (not b) ]

  unfoldable pub add_threat_intel_source : Json → Exchange
  unfolding notified
  add_threat_intel_source source =
      send
        (record {
          method = Method.post;
          url = ".." & Api.threat_intel_base & "/sources";
          query = scoped page;
          body = json_body page source;
        })
        (notified "add" "threat intel source" "created")

  unfoldable pub update_threat_intel_source : String → Json → Exchange
  unfolding notified
  update_threat_intel_source id source =
      send
        (record {
          method = Method.put;
          url = ".." & Api.threat_intel_base & "/sources/" & id;
          query = scoped page;
          body = json_body page source;
        })
        (notified "update" "threat intel source" "updated")

  -- No notice where the index of the sources is not there yet.
  unfoldable pub searched_sources : Outcome Json → Finished
  unfolding read opt lacks error_toast
  searched_sources (throw error) = quietly (throw error)
  searched_sources (return res) = elim (read page res "ok") [
    | throw error ↦ quietly (throw error)
    | return ok ↦
        let refused : Finished =
          elim (lacks (opt res "error") "Threat intel source config index does not exist") [
            | throw error ↦ quietly (throw error)
            | return shown ↦ record {
              promise = return res;
              toasts =
                  if shown
                  then error_toast page "get" "threat intel source(s)" (opt res "error")
                  else [];
            }
          ] in
        if truthy ok then quietly (return res) else refused
  ]

  unfoldable pub search_threat_intel_source : Exchange
  unfolding searched_sources
  search_threat_intel_source =
      send
        (record {
          method = Method.post;
          url = ".." & Api.threat_intel_base & "/sources/_search";
          query = scoped page;
          body = json_body page match_all;
        })
        searched_sources

  unfoldable pub get_threat_intel_source : String → Exchange
  unfolding reported
  get_threat_intel_source source_id =
      send
        (record {
          method = Method.get;
          url = ".." & Api.threat_intel_base & "/sources/" & source_id;
          query = scoped page;
          body = none;
        })
        (reported page "get" "threat intel source")

  unfoldable pub delete_threat_intel_source : String → Exchange
  unfolding notified
  delete_threat_intel_source source_id =
      send
        (record {
          method = Method.delete;
          url = ".." & Api.threat_intel_base & "/sources/" & source_id;
          query = scoped page;
          body = none;
        })
        (notified "delete" "threat intel source" "deleted")

  unfoldable pub refresh_threat_intel_source : String → Exchange
  unfolding notified
  refresh_threat_intel_source source_id =
      send
        (record {
          method = Method.post;
          url = ".." & Api.threat_intel_base & "/sources/" & source_id & "/_refresh";
          query = scoped page;
          body = none;
        })
        (notified "refresh" "threat intel source" "refreshed")

  unfoldable pub create_threat_intel_monitor : Json → Exchange
  unfolding notified
  create_threat_intel_monitor monitor =
      send
        (record {
          method = Method.post;
          url = ".." & Api.threat_intel_base & "/monitors";
          query = scoped page;
          body = json_body page monitor;
        })
        (notified "setup" "threat intel scan" "setup")

  unfoldable pub update_threat_intel_monitor : String → Json → Exchange
  unfolding notified
  update_threat_intel_monitor id monitor =
      send
        (record {
          method = Method.put;
          url = ".." & Api.threat_intel_base & "/monitors/" & id;
          query = scoped page;
          body = json_body page monitor;
        })
        (notified "update" "threat intel scan configuration" "updated")

  unfoldable pub delete_threat_intel_monitor : String → Exchange
  unfolding notified
  delete_threat_intel_monitor monitor_id =
      send
        (record {
          method = Method.delete;
          url = ".." & Api.threat_intel_base & "/monitors/" & monitor_id;
          query = scoped page;
          body = none;
        })
        (notified "delete" "threat intel scan configuration" "deleted")

  -- { ok, response: hit ? { ...hit._source } : undefined }, of the first hit.
  unfoldable pub scan_config_of : Json → Json → Outcome Json
  unfolding read opt assign
  scan_config_of res ok = read page res "response" >>= λ response.
      (read page response "hits" >>= λ hits.
      (read page hits "hits" >>= λ found.
      if is_nullish found
      then throw page.type_error
      else return (
          object (
            ("ok", ok)
            ∷ (
              "response",
              if truthy (at_zero found)
                  then obj (assign Fields.end (spread (opt (at_zero found) "_source")))
                  else undefined,
            )
            ∷ []))))

  -- No notice where the index of the monitors is not there yet.
  unfoldable pub searched_scan_config : Outcome Json → Finished
  unfolding scan_config_of read opt includes error_toast
  searched_scan_config (throw error) = quietly (throw error)
  searched_scan_config (return res) = elim (read page res "ok") [
    | throw error ↦ quietly (throw error)
    | return ok ↦
        let refused : Finished =
          elim (includes (opt res "error")
            "Configured indices are not found: [.opendistro-alerting-config]") [
              | throw error ↦ quietly (throw error)
              | return known ↦ record {
                promise = return res;
                toasts =
                    if known
                    then []
                    else error_toast page "get" "threat intel scan monitor" (opt res "error");
              }
            ] in
        if truthy ok then quietly (scan_config_of res ok) else refused
  ]

  unfoldable pub get_threat_intel_scan_config : Exchange
  unfolding searched_scan_config
  get_threat_intel_scan_config =
      send
        (record {
          method = Method.post;
          url = ".." & Api.threat_intel_base & "/monitors/_search";
          query = scoped page;
          body = json_body page match_all;
        })
        searched_scan_config

  unfoldable pub get_threat_intel_iocs : Json → Exchange
  unfolding reported assign
  get_threat_intel_iocs params =
      send
        (record {
          method = Method.get;
          url = ".." & Api.threat_intel_base & "/iocs";
          query =
              obj (assign (fields (("dataSourceId", page.data_source_id) ∷ [])) (spread params));
          body = none;
        })
        (reported page "get" "indicators of compromise")
