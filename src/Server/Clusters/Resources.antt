-- ===== src/Server/Clusters/Resources.antt =====
-- The actions of server/clusters: addRuleMethods.ts, addNotificationsMethods.ts and
-- addLogTypeMethods.ts.
use wazuh_dashboard_security.Base.{true, false, List, [], ◌∷◌}
use wazuh_dashboard_security.Server.Clusters.Action.{
  get, post, put, delete, string_type, boolean_type, ClientAction, parameter,
}

abbrev pub add_rules_methods : List ClientAction
add_rules_methods =
    record {
      name = "createRule";
      fmt = "/_plugins/_security_analytics/rules?category=<%=category%>";
      req = parameter "category" string_type true ∷ [];
      params = [];
      need_body = true;
      verb = post;
    }
    ∷ record {
      name = "getRules";
      fmt = "/_plugins/_security_analytics/rules/_search?pre_packaged=<%=prePackaged%>";
      req = parameter "prePackaged" boolean_type true ∷ [];
      params = [];
      need_body = true;
      verb = post;
    }
    ∷ record {
      name = "deleteRule";
      fmt = "/_plugins/_security_analytics/rules/<%=ruleId%>?forced=true";
      req = parameter "ruleId" string_type true ∷ [];
      params = [];
      need_body = false;
      verb = delete;
    }
    ∷ record {
      name = "updateRules";
      fmt = "/_plugins/_security_analytics/rules/<%=ruleId%>?category=<%=category%>&forced=true";
      req = parameter "ruleId" string_type true ∷ parameter "category" string_type true ∷ [];
      params = [];
      need_body = true;
      verb = put;
    }
    ∷ []

abbrev pub add_notifications_methods : List ClientAction
add_notifications_methods =
    record {
      name = "getChannel";
      fmt = "/_plugins/_notifications/configs/<%=id%>";
      req = parameter "id" string_type true ∷ [];
      params = [];
      need_body = false;
      verb = get;
    }
    ∷ record {
      name = "getChannels";
      fmt = "/_plugins/_notifications/channels";
      req = [];
      params = [];
      need_body = false;
      verb = get;
    }
    ∷ record {
      name = "getFeatures";
      fmt = "/_plugins/_notifications/features";
      req = [];
      params = [];
      need_body = false;
      verb = get;
    }
    ∷ []

abbrev pub add_log_type_methods : List ClientAction
add_log_type_methods =
    record {
      name = "searchLogTypes";
      fmt = "/_plugins/_security_analytics/logtype/_search";
      req = [];
      params = [];
      need_body = true;
      verb = post;
    }
    ∷ record {
      name = "createLogType";
      fmt = "/_plugins/_security_analytics/logtype";
      req = [];
      params = [];
      need_body = true;
      verb = post;
    }
    ∷ record {
      name = "updateLogType";
      fmt = "/_plugins/_security_analytics/logtype/<%=logTypeId%>";
      req = parameter "logTypeId" string_type true ∷ [];
      params = [];
      need_body = true;
      verb = put;
    }
    ∷ record {
      name = "deleteLogType";
      fmt = "/_plugins/_security_analytics/logtype/<%=logTypeId%>";
      req = parameter "logTypeId" string_type true ∷ [];
      params = [];
      need_body = false;
      verb = delete;
    }
    ∷ []
