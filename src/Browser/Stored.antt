-- ===== src/Browser/Stored.antt =====
-- public/services: KVDBsService.ts and PoliciesService.ts.
use wazuh_dashboard_security.Base.{String, List, [], ◌∷◌, none}
use wazuh_dashboard_security.Json.{Json, undefined, str, object, text_array, nullish, default}
use wazuh_dashboard_security.Json.Text.{◌&◌}
use wazuh_dashboard_security.Server.Routes.{Method}
use wazuh_dashboard_security.Browser.{Exchange, Page, ask, json_body}
use wazuh_dashboard_security.Browser.Api

module _ (page : Page) where
  unfoldable pub search_kvdbs : Json → Exchange
  search_kvdbs params = ask (record {
    method = Method.post;
    url = ".." & Api.kvdbs_base & "/_search";
    query = undefined;
    body = json_body page (nullish params (object []));
  })

  unfoldable pub search_integrations : List String → Exchange
  search_integrations kvdb_ids = ask (record {
    method = Method.post;
    url = ".." & Api.kvdbs_base & "/_integrations";
    query = undefined;
    body = json_body page (object (("kvdbIds", text_array kvdb_ids) ∷ []));
  })

  unfoldable pub create_kvdb : Json → Exchange
  create_kvdb kvdb = ask (record {
    method = Method.post;
    url = ".." & Api.kvdbs_base;
    query = undefined;
    body = json_body page kvdb;
  })

  unfoldable pub update_kvdb : String → Json → Exchange
  update_kvdb kvdb_id kvdb = ask (record {
    method = Method.put;
    url = ".." & Api.kvdbs_base & "/" & kvdb_id;
    query = undefined;
    body = json_body page kvdb;
  })

  unfoldable pub delete_kvdb : String → Exchange
  delete_kvdb kvdb_id = ask (record {
    method = Method.delete;
    url = ".." & Api.kvdbs_base & "/" & kvdb_id;
    query = undefined;
    body = none;
  })

  -- options: SearchPolicyOptions = {}
  unfoldable pub search_policies : String → Json → Exchange
  search_policies space options = ask (record {
    method = Method.post;
    url = ".." & Api.policies_base & "/_search";
    query = object (("space", str space) ∷ []);
    body = json_body page (default options (object []));
  })

  unfoldable pub get_policy : String → Exchange
  get_policy policy_id = ask (record {
    method = Method.get;
    url = ".." & Api.policies_base & "/" & policy_id;
    query = undefined;
    body = none;
  })

  unfoldable pub update_policy : String → Json → Exchange
  update_policy space policy = ask (record {
    method = Method.put;
    url = ".." & Api.policies_base & "/" & space;
    query = undefined;
    body = json_body page policy;
  })

  unfoldable pub delete_space : String → Exchange
  delete_space space = ask (record {
    method = Method.delete;
    url = ".." & Api.spaces_base & "/" & space;
    query = undefined;
    body = none;
  })
