-- ===== src/Server/Clusters/Intelligence.antt =====
-- The actions of server/clusters: addThreatIntelMethods.ts.
use wazuh_dashboard_security.Base.{true, false, List, [], ◌∷◌}
use wazuh_dashboard_security.Server.Clusters.Action.{
  get, post, put, delete, string_type, number_type, ClientAction, parameter,
}

abbrev pub add_threat_intel_methods : List ClientAction
add_threat_intel_methods =
    record {
      name = "addThreatIntelSource";
      fmt = "/_plugins/_security_analytics/threat_intel/sources";
      req = [];
      params = [];
      need_body = true;
      verb = post;
    }
    ∷ record {
      name = "updateThreatIntelSource";
      fmt = "/_plugins/_security_analytics/threat_intel/sources/<%=sourceId%>";
      req = parameter "sourceId" string_type true ∷ [];
      params = [];
      need_body = true;
      verb = put;
    }
    ∷ record {
      name = "searchThreatIntelSources";
      fmt = "/_plugins/_security_analytics/threat_intel/sources/_search";
      req = [];
      params = [];
      need_body = true;
      verb = post;
    }
    ∷ record {
      name = "getThreatIntelSource";
      fmt = "/_plugins/_security_analytics/threat_intel/sources/<%=sourceId%>";
      req = parameter "sourceId" string_type true ∷ [];
      params = [];
      need_body = false;
      verb = get;
    }
    ∷ record {
      name = "createThreatIntelMonitor";
      fmt = "/_plugins/_security_analytics/threat_intel/monitors";
      req = [];
      params = [];
      need_body = true;
      verb = post;
    }
    ∷ record {
      name = "updateThreatIntelMonitor";
      fmt = "/_plugins/_security_analytics/threat_intel/monitors/<%=monitorId%>";
      req = parameter "monitorId" string_type true ∷ [];
      params = [];
      need_body = true;
      verb = put;
    }
    ∷ record {
      name = "searchThreatIntelMonitors";
      fmt = "/_plugins/_security_analytics/threat_intel/monitors/_search";
      req = [];
      params = [];
      need_body = true;
      verb = post;
    }
    ∷ record {
      name = "getThreatIntelIoCs";
      fmt = "/_plugins/_security_analytics/threat_intel/iocs";
      req = [];
      params =
          parameter "startIndex" number_type false
          ∷ parameter "size" number_type false
          ∷ parameter "feed_ids" string_type false
          ∷ parameter "ioc_types" string_type false
          ∷ parameter "searchString" string_type false
          ∷ parameter "sortString" string_type false
          ∷ [];
      need_body = false;
      verb = get;
    }
    ∷ record {
      name = "deleteThreatIntelSource";
      fmt = "/_plugins/_security_analytics/threat_intel/sources/<%=sourceId%>";
      req = parameter "sourceId" string_type true ∷ [];
      params = [];
      need_body = false;
      verb = delete;
    }
    ∷ record {
      name = "refreshThreatIntelSource";
      fmt = "/_plugins/_security_analytics/threat_intel/sources/<%=sourceId%>/_refresh";
      req = parameter "sourceId" string_type true ∷ [];
      params = [];
      need_body = false;
      verb = post;
    }
    ∷ record {
      name = "deleteThreatIntelMonitor";
      fmt = "/_plugins/_security_analytics/threat_intel/monitors/<%=monitorId%>";
      req = parameter "monitorId" string_type true ∷ [];
      params = [];
      need_body = false;
      verb = delete;
    }
    ∷ []
