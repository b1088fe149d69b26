-- ===== src/Browser/Correlations.antt =====
-- public/services: CorrelationService.ts, LogTypeService.ts and RuleService.ts.
use wazuh_dashboard_security.Base.{
  String, Bool, [], ◌∷◌, ◌++◌, Option, none, some, if◌then◌else◌, ◌==◌,
}
use wazuh_dashboard_security.Json.{Json, bool, num, str, object, text_array, nullish}
use wazuh_dashboard_security.Json.Text.{◌&◌}
use wazuh_dashboard_security.Server.Routes.{Method}
use wazuh_dashboard_security.Browser.{Exchange, Page, ask, scoped, json_body}
use wazuh_dashboard_security.Browser.Api

module _ (page : Page) where
  unfoldable pub acknowledge_correlation_alerts : Json → Exchange
  acknowledge_correlation_alerts alert_ids = ask (record {
    method = Method.post;
    url = ".." & Api.ack_correlation_alerts;
    query = scoped page;
    body = json_body page (object (("alertIds", alert_ids) ∷ []));
  })

  unfoldable pub get_correlation_alerts : Exchange
  get_correlation_alerts = ask (record {
    method = Method.get;
    url = ".." & Api.get_correlation_alerts;
    query = scoped page;
    body = none;
  })

  -- nearby_findings: number = 20, as given or not.
  unfoldable pub get_correlated_findings : String → String → Option Json → Exchange
  get_correlated_findings finding detector_type nearby_findings = ask (record {
    method = Method.get;
    url = ".." & Api.findings_base & "/correlate";
    query = object (
        ("finding", str finding)
        ∷ ("detector_type", str detector_type)
        ∷ ("nearby_findings", elim nearby_findings [ none ↦ num 20 | some n ↦ n ])
        ∷ ("dataSourceId", page.data_source_id)
        ∷ []);
    body = none;
  })

  -- The index is not used.
  unfoldable pub get_correlation_rules : Option String → Json → Exchange
  get_correlation_rules index query = ask (record {
    method = Method.post;
    url = ".." & Api.correlation_base & "/_search";
    query = scoped page;
    body =
        json_body page
          (object (("query", nullish query (object (("match_all", object []) ∷ []))) ∷ []));
  })

  unfoldable pub create_correlation_rule : Json → Exchange
  create_correlation_rule rule = ask (record {
    method = Method.post;
    url = ".." & Api.correlation_base;
    query = scoped page;
    body = json_body page rule;
  })

  unfoldable pub update_correlation_rule : String → Json → Exchange
  update_correlation_rule id rule = ask (record {
    method = Method.put;
    url = ".." & Api.correlation_base & "/" & id;
    query = scoped page;
    body = json_body page rule;
  })

  unfoldable pub delete_correlation_rule : String → Exchange
  delete_correlation_rule rule_id = ask (record {
    method = Method.delete;
    url = ".." & Api.correlation_base & "/" & rule_id;
    query = scoped page;
    body = none;
  })

  unfoldable pub get_all_correlations_in_time_window : String → String → Exchange
  get_all_correlations_in_time_window start_time end_time = ask (record {
    method = Method.get;
    url = ".." & Api.correlations;
    query = object (
        ("start_time", str start_time)
        ∷ ("end_time", str end_time)
        ∷ ("dataSourceId", page.data_source_id)
        ∷ []);
    body = none;
  })

  unfoldable pub create_log_type : Json → Exchange
  create_log_type log_type = ask (record {
    method = Method.post;
    url = ".." & Api.logtype_base;
    query = scoped page;
    body = json_body page log_type;
  })

  log_types_query : Option String → Json
  log_types_query id =
      let all = object (
        (
          "bool",
          object (
              (
                "must",
                object (
                    (
                      "query_string",
                      object (
                          (
                            "query",
                            str
                                "(space: standard and !(name: others*) and !(name: test*)) or (space: custom)",
                          )
                          ∷ []),
                    )
                    ∷ []),
              )
              ∷ []),
        )
        ∷ []) in
      elim id [
        | none ↦ all
        | some i ↦
            if i == ""
            then all
            else object (("terms", object (("_id", text_array (i ∷ [])) ∷ [])) ∷ [])
      ]

  unfoldable pub search_log_types : Option String → Exchange
  unfolding log_types_query
  search_log_types id = ask (record {
    method = Method.post;
    url = ".." & Api.logtype_base & "/_search";
    query = scoped page;
    body = json_body page (log_types_query id);
  })

  unfoldable pub update_log_type : String → Json → Exchange
  update_log_type log_type_id log_type = ask (record {
    method = Method.put;
    url = ".." & Api.logtype_base & "/" & log_type_id;
    query = scoped page;
    body = json_body page log_type;
  })

  unfoldable pub delete_log_type : String → Exchange
  delete_log_type log_type_id = ask (record {
    method = Method.delete;
    url = ".." & Api.logtype_base & "/" & log_type_id;
    query = scoped page;
    body = none;
  })

  -- ...(space !== undefined && { space })
  unfoldable pub get_rules : Bool → Json → Option String → Exchange
  get_rules pre_packaged search space = ask (record {
    method = Method.post;
    url = ".." & Api.rules_base & "/_search";
    query = object (
        ("prePackaged", bool pre_packaged)
        ∷ (elim space [ none ↦ [] | some s ↦ ("space", str s) ∷ [] ]
            ++ ("dataSourceId", page.data_source_id) ∷ []));
    body = json_body page search;
  })

  unfoldable pub create_rule : Json → Exchange
  create_rule rule = ask (record {
    method = Method.post;
    url = ".." & Api.rules_base;
    query = scoped page;
    body = json_body page rule;
  })

  unfoldable pub update_rule : String → Json → Exchange
  update_rule rule_id rule = ask (record {
    method = Method.put;
    url = ".." & Api.rules_base & "/" & rule_id;
    query = scoped page;
    body = json_body page rule;
  })

  unfoldable pub delete_rule : String → Exchange
  delete_rule rule_id = ask (record {
    method = Method.delete;
    url = ".." & Api.rules_base & "/" & rule_id;
    query = scoped page;
    body = none;
  })
