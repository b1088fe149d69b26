-- ===== src/Server/Clusters/Detection.antt =====
-- The actions of server/clusters: addDetectorMethods.ts and addCorrelationMethods.ts.
use wazuh_dashboard_security.Base.{true, false, List, [], ◌∷◌}
use wazuh_dashboard_security.Server.Clusters.Action.{
  get, post, put, delete, string_type, number_type, ClientAction, parameter,
}

abbrev pub add_detector_methods : List ClientAction
add_detector_methods =
    record {
      name = "createDetector";
      fmt = "/_plugins/_security_analytics/detectors";
      req = [];
      params = [];
      need_body = true;
      verb = post;
    }
    ∷ record {
      name = "getDetector";
      fmt = "/_plugins/_security_analytics/detectors/<%=detectorId%>";
      req = parameter "detectorId" string_type true ∷ [];
      params = [];
      need_body = false;
      verb = get;
    }
    ∷ record {
      name = "searchDetectors";
      fmt = "/_plugins/_security_analytics/detectors/_search";
      req = [];
      params = [];
      need_body = true;
      verb = post;
    }
    ∷ record {
      name = "updateDetector";
      fmt = "/_plugins/_security_analytics/detectors/<%=detectorId%>";
      req = parameter "detectorId" string_type true ∷ [];
      params = [];
      need_body = true;
      verb = put;
    }
    ∷ record {
      name = "deleteDetector";
      fmt = "/_plugins/_security_analytics/detectors/<%=detectorId%>";
      req = parameter "detectorId" string_type true ∷ [];
      params = [];
      need_body = false;
      verb = delete;
    }
    ∷ []

abbrev pub add_correlation_methods : List ClientAction
add_correlation_methods =
    record {
      name = "getCorrelationRules";
      fmt = "/_plugins/_security_analytics/correlation/rules/_search";
      req = [];
      params = [];
      need_body = true;
      verb = post;
    }
    ∷ record {
      name = "createCorrelationRule";
      fmt = "/_plugins/_security_analytics/correlation/rules";
      req = [];
      params = [];
      need_body = true;
      verb = post;
    }
    ∷ record {
      name = "updateCorrelationRule";
      fmt = "/_plugins/_security_analytics/correlation/rules/<%=ruleId%>";
      req = parameter "ruleId" string_type true ∷ [];
      params = [];
      need_body = true;
      verb = put;
    }
    ∷ record {
      name = "deleteCorrelationRule";
      fmt = "/_plugins/_security_analytics/correlation/rules/<%=ruleId%>";
      req = parameter "ruleId" string_type true ∷ [];
      params = [];
      need_body = false;
      verb = delete;
    }
    ∷ record {
      name = "getCorrelatedFindings";
      fmt =
          "/_plugins/_security_analytics/findings/correlate?finding=<%=finding%>&detector_type=<%=detector_type%>&nearby_findings=<%=nearby_findings%>";
      req =
          parameter "finding" string_type true
          ∷ parameter "detector_type" string_type true
          ∷ parameter "nearby_findings" number_type false
          ∷ [];
      params = [];
      need_body = false;
      verb = get;
    }
    ∷ record {
      name = "getAllCorrelations";
      fmt =
          "/_plugins/_security_analytics/correlations?start_timestamp=<%=start_timestamp%>&end_timestamp=<%=end_timestamp%>";
      req =
          parameter "start_timestamp" string_type true
          ∷ parameter "end_timestamp" string_type true
          ∷ [];
      params = [];
      need_body = false;
      verb = get;
    }
    ∷ record {
      name = "getAllCorrelationAlerts";
      fmt = "/_plugins/_security_analytics/correlationAlerts";
      req = [];
      params = [];
      need_body = false;
      verb = get;
    }
    ∷ record {
      name = "acknowledgeCorrelationAlerts";
      fmt = "/_plugins/_security_analytics/_acknowledge/correlationAlerts";
      req = [];
      params = [];
      need_body = true;
      verb = post;
    }
    ∷ []
