-- ===== src/Server/Clusters/Observation.antt =====
-- The actions of server/clusters: addFieldMappingMethods.ts, addFindingsMethods.ts and
-- addAlertsMethods.ts.
use wazuh_dashboard_security.Base.{true, false, List, [], ◌∷◌}
use wazuh_dashboard_security.Server.Clusters.Action.{
  get, post, put, string_type, number_type, list_type, ClientAction, parameter,
}

abbrev pub add_field_mapping_methods : List ClientAction
add_field_mapping_methods =
    record {
      name = "getFieldMappingsView";
      fmt =
          "/_plugins/_security_analytics/mappings/view?index_name=<%=indexName%>&rule_topic=<%=ruleTopic%>";
      req = parameter "indexName" string_type true ∷ parameter "ruleTopic" string_type false ∷ [];
      params = [];
      need_body = false;
      verb = get;
    }
    ∷ record {
      name = "createMappings";
      fmt = "/_plugins/_security_analytics/mappings";
      req = [];
      params = [];
      need_body = true;
      verb = post;
    }
    ∷ record {
      name = "getMappings";
      fmt = "/_plugins/_security_analytics/mappings?index_name=<%=indexName%>";
      req = parameter "indexName" string_type true ∷ [];
      params = [];
      need_body = false;
      verb = get;
    }
    ∷ record {
      name = "getIndexAliasMappings";
      fmt = "/<%=indexName%>/_mapping";
      req = parameter "indexName" string_type true ∷ [];
      params = [];
      need_body = false;
      verb = get;
    }
    ∷ []

abbrev pub add_findings_methods : List ClientAction
add_findings_methods =
    record {
      name = "getFindings";
      fmt = "/_plugins/_security_analytics/findings/_search";
      req = [];
      params =
          parameter "detector_id" string_type false
          ∷ parameter "sortOrder" string_type false
          ∷ parameter "size" number_type false
          ∷ parameter "detectorType" string_type false
          ∷ parameter "startIndex" number_type false
          ∷ parameter "detectionType" string_type false
          ∷ parameter "severity" string_type false
          ∷ parameter "searchString" string_type false
          ∷ parameter "findingIds" string_type false
          ∷ [];
      need_body = false;
      verb = get;
    }
    ∷ record {
      name = "getThreatIntelFindings";
      fmt = "/_plugins/_security_analytics/threat_intel/findings/_search";
      req = [];
      params =
          parameter "sortOrder" string_type false
          ∷ parameter "size" number_type false
          ∷ parameter "startIndex" number_type false
          ∷ parameter "searchString" string_type false
          ∷ parameter "findingIds" list_type false
          ∷ parameter "iocIds" string_type false
          ∷ parameter "startTime" number_type false
          ∷ parameter "endTime" number_type false
          ∷ [];
      need_body = false;
      verb = get;
    }
    ∷ []

abbrev pub add_alerts_methods : List ClientAction
add_alerts_methods =
    record {
      name = "getAlerts";
      fmt = "/_plugins/_security_analytics/alerts";
      req = [];
      params =
          parameter "detector_id" string_type false
          ∷ parameter "sortOrder" string_type false
          ∷ parameter "size" number_type false
          ∷ parameter "startIndex" number_type false
          ∷ [];
      need_body = false;
      verb = get;
    }
    ∷ record {
      name = "acknowledgeAlerts";
      fmt = "/_plugins/_security_analytics/detectors/<%=detector_id%>/_acknowledge/alerts";
      req = parameter "detector_id" string_type true ∷ [];
      params = [];
      need_body = true;
      verb = post;
    }
    ∷ record {
      name = "getThreatIntelAlerts";
      fmt = "/_plugins/_security_analytics/threat_intel/alerts";
      req = [];
      params =
          parameter "sortOrder" string_type false
          ∷ parameter "size" number_type false
          ∷ parameter "startIndex" number_type false
          ∷ parameter "startTime" number_type false
          ∷ parameter "endTime" number_type false
          ∷ [];
      need_body = false;
      verb = get;
    }
    ∷ record {
      name = "updateThreatIntelAlertsStatus";
      fmt = "/_plugins/_security_analytics/threat_intel/alerts/status";
      req = [];
      params = parameter "state" string_type true ∷ parameter "alert_ids" string_type true ∷ [];
      need_body = false;
      verb = put;
    }
    ∷ []
