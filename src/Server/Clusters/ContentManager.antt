-- ===== src/Server/Clusters/ContentManager.antt =====
-- The actions of server/clusters: addIntegrationsMethods.ts, addPoliciesMethods.ts,
-- addDecoderMethods.ts, addKVDBsMethods.ts, addFiltersMethods.ts, addLogTestMethods.ts and
-- addWazuhRuleMethods.ts.
use wazuh_dashboard_security.Base.{true, false, List, [], ◌∷◌}
use wazuh_dashboard_security.Server.Clusters.Action.{
  get, post, put, delete, string_type, ClientAction, parameter,
}

abbrev pub add_integrations_methods : List ClientAction
add_integrations_methods =
    record {
      name = "deleteIntegration";
      fmt = "/_plugins/_content_manager/integrations/<%=integrationId%>";
      req = parameter "integrationId" string_type true ∷ [];
      params = [];
      need_body = false;
      verb = delete;
    }
    ∷ record {
      name = "createIntegration";
      fmt = "/_plugins/_content_manager/integrations";
      req = [];
      params = [];
      need_body = true;
      verb = post;
    }
    ∷ record {
      name = "updateIntegration";
      fmt = "/_plugins/_content_manager/integrations/<%=integrationId%>";
      req = parameter "integrationId" string_type true ∷ [];
      params = [];
      need_body = true;
      verb = put;
    }
    ∷ record {
      name = "getPromoteBySpace";
      fmt = "/_plugins/_content_manager/promote";
      req = [];
      params = parameter "space" string_type true ∷ [];
      need_body = true;
      verb = get;
    }
    ∷ record {
      name = "promoteIntegration";
      fmt = "/_plugins/_content_manager/promote";
      req = [];
      params = [];
      need_body = true;
      verb = post;
    }
    ∷ []

abbrev pub add_policies_methods : List ClientAction
add_policies_methods =
    record {
      name = "updatePolicy";
      fmt = "/_plugins/_content_manager/policy/<%=space%>";
      req = parameter "space" string_type false ∷ [];
      params = [];
      need_body = true;
      verb = put;
    }
    ∷ record {
      name = "deleteSpace";
      fmt = "/_plugins/_content_manager/space/<%=space%>";
      req = parameter "space" string_type true ∷ [];
      params = [];
      need_body = false;
      verb = delete;
    }
    ∷ []

abbrev pub add_decoder_methods : List ClientAction
add_decoder_methods =
    record {
      name = "createDecoder";
      fmt = "/_plugins/_content_manager/decoders";
      req = [];
      params = [];
      need_body = true;
      verb = post;
    }
    ∷ record {
      name = "updateDecoder";
      fmt = "/_plugins/_content_manager/decoders/<%=decoderId%>";
      req = parameter "decoderId" string_type false ∷ [];
      params = [];
      need_body = true;
      verb = put;
    }
    ∷ record {
      name = "deleteDecoder";
      fmt = "/_plugins/_content_manager/decoders/<%=decoderId%>";
      req = parameter "decoderId" string_type false ∷ [];
      params = [];
      need_body = false;
      verb = delete;
    }
    ∷ []

abbrev pub add_kvdbs_methods : List ClientAction
add_kvdbs_methods =
    record {
      name = "createKvdb";
      fmt = "/_plugins/_content_manager/kvdbs";
      req = [];
      params = [];
      need_body = true;
      verb = post;
    }
    ∷ record {
      name = "updateKvdb";
      fmt = "/_plugins/_content_manager/kvdbs/<%=kvdbId%>";
      req = parameter "kvdbId" string_type false ∷ [];
      params = [];
      need_body = true;
      verb = put;
    }
    ∷ record {
      name = "deleteKvdb";
      fmt = "/_plugins/_content_manager/kvdbs/<%=kvdbId%>";
      req = parameter "kvdbId" string_type false ∷ [];
      params = [];
      need_body = false;
      verb = delete;
    }
    ∷ []

abbrev pub add_filters_methods : List ClientAction
add_filters_methods =
    record {
      name = "createFilter";
      fmt = "/_plugins/_content_manager/filters";
      req = [];
      params = [];
      need_body = true;
      verb = post;
    }
    ∷ record {
      name = "updateFilter";
      fmt = "/_plugins/_content_manager/filters/<%=filterId%>";
      req = parameter "filterId" string_type false ∷ [];
      params = [];
      need_body = true;
      verb = put;
    }
    ∷ record {
      name = "deleteFilter";
      fmt = "/_plugins/_content_manager/filters/<%=filterId%>";
      req = parameter "filterId" string_type false ∷ [];
      params = [];
      need_body = false;
      verb = delete;
    }
    ∷ []

abbrev pub add_log_test_methods : List ClientAction
add_log_test_methods =
    record {
      name = "executeLogtest";
      fmt = "/_plugins/_content_manager/logtest";
      req = [];
      params = [];
      need_body = true;
      verb = post;
    }
    ∷ []

abbrev pub add_wazuh_rules_methods : List ClientAction
add_wazuh_rules_methods =
    record {
      name = "createWazuhRule";
      fmt = "/_plugins/_content_manager/rules";
      req = [];
      params = [];
      need_body = true;
      verb = post;
    }
    ∷ record {
      name = "updateWazuhRule";
      fmt = "/_plugins/_content_manager/rules/<%=ruleId%>";
      req = parameter "ruleId" string_type false ∷ [];
      params = [];
      need_body = true;
      verb = put;
    }
    ∷ record {
      name = "deleteWazuhRule";
      fmt = "/_plugins/_content_manager/rules/<%=ruleId%>";
      req = parameter "ruleId" string_type false ∷ [];
      params = [];
      need_body = false;
      verb = delete;
    }
    ∷ []
