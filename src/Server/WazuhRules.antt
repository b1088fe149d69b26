-- ===== src/Server/WazuhRules.antt =====
-- server/services/WazuhRuleService.ts: every handler of the class. js-yaml's load is a parameter.
mod Lookup
mod Resource
unfoldable pub use Lookup.*
unfoldable pub use Resource.*
pub mod Entries
pub mod Replies
use wazuh_dashboard_security.Base.{
  Bool, true, false, not, List, [], ◌∷◌, if◌then◌else◌, Option, none, some,
}
use wazuh_dashboard_security.Json.{
  Json, undefined, null, bool, num, str, obj, end, object, array, text_array, truthy, nullish,
  or_else, default, opt, path, set_field, spread,
}
use wazuh_dashboard_security.Server.Client.{
  current_user, Outcome, Host, Request, Reply, succeed, fail, Action, pure, ◌>>=◌, try_catch, call,
  get, each, map_each, error_body_message, error_message, handle,
}

-- What Map.prototype.get gives.
abbrev pub or_undefined : Option Json → Json
or_undefined none = undefined
or_undefined (some v) = v

abbrev pub is_undefined : Json → Bool
is_undefined undefined = true
is_undefined _ = false

module _ (host : Host) (load : Json → Outcome Json) where
  -- hit._source?.document?.id || hit.document?.id
  unfoldable pub rule_id : Json → Action Json
  rule_id hit = do
    source ← get host hit "_source"
    pure (or_else (path source ("document" ∷ "id" ∷ [])) (path hit ("document" ∷ "id" ∷ [])))

  unfoldable pub fetch_integrations : List Json → Json → Action RuleMap
  unfolding collect
  fetch_integrations [] space = pure []
  fetch_integrations (id ∷ ids) space =
      try_catch
        (do
          response ← call host current_user "search" (
              object (
                ("index", str "wazuh-threatintel-integrations")
                ∷ (
                  "body",
                  object (
                      ("size", num 10000)
                      ∷ (
                        "query",
                        object (
                            (
                              "bool",
                              object (
                                  (
                                    "must",
                                    array (
                                        object (
                                          (
                                            "terms",
                                            object (("document.rules", array (id ∷ ids)) ∷ []),
                                          )
                                          ∷ [])
                                        ∷ object
                                            (("term", object (("space.name", space) ∷ [])) ∷ [])
                                        ∷ []),
                                  )
                                  ∷ []),
                            )
                            ∷ []),
                      )
                      ∷ (
                        "_source",
                        text_array
                            ("document.id" ∷ "document.metadata.title" ∷ "document.rules" ∷ []),
                      )
                      ∷ []),
                )
                ∷ []))
          pure (collect response))
        (λ error. pure [])

  -- { ...hit, integration: integrationMap.get(id) || null }
  unfoldable pub enriched_hit : RuleMap → Json → Action Json
  unfolding entry_of set_field
  enriched_hit m hit = do
    id ← rule_id hit
    pure (obj (set_field "integration" (or_else (or_undefined (entry_of id m)) null) (spread hit)))

  unfoldable pub search_body : Json → Json → Json → Json
  unfolding build_query opt set_field
  search_body body pre_packaged space =
      let source = opt body "_source" in
      obj (
        set_if (not (is_undefined source)) "_source" source (
          set_if (truthy (opt body "sort")) "sort" (opt body "sort") (
            spread (
              object (
                ("from", default (opt body "from") (num 0))
                ∷ ("size", default (opt body "size") (num 5000))
                ∷ ("track_total_hits", bool true)
                ∷ ("query", build_query pre_packaged (opt body "query") space)
                ∷ [])))))

  unfoldable pub get_rules : Request → Action Reply
  get_rules request =
      handle
        (do
          pre_packaged ← get host request.query "prePackaged"
          let space = opt request.query "space"
          let body = nullish request.body (obj end)
          response ← call host current_user "search" (
              object (
                ("index", str "wazuh-threatintel-rules")
                ∷ ("body", search_body body pre_packaged space)
                ∷ []))
          hits ← each host (or_else (path response ("hits" ∷ "hits" ∷ [])) (array []))
          ids ← map_each host rule_id hits
          m ← fetch_integrations ids (space_or_pre_packaged pre_packaged space)
          found ← map_each host (enriched_hit m) hits
          outer ← get host response "hits"
          pure (
              succeed (
                obj (
                  set_field "hits" (obj (set_field "hits" (array found) (spread outer)))
                    (spread response)))))
        (error_message host)

  unfoldable pub create_rule : Request → Action Reply
  create_rule request =
      handle
        (do
          rule ← get host request.body "document"
          if not (truthy rule) then pure (fail (str "Rule document is required")) else (do
            resource ← build_rule_resource host load rule
            response ← call host current_user "securityAnalytics.createWazuhRule" (
                object (
                  (
                    "body",
                    object (
                        ("resource", resource)
                        ∷ ("integration", opt request.body "integrationId")
                        ∷ []),
                  )
                  ∷ []))
            pure (succeed response)))
        (error_body_message host)

  unfoldable pub update_rule : Request → Action Reply
  update_rule request =
      handle
        (do
          id ← get host request.params "ruleId"
          rule ← get host request.body "document"
          if not (truthy rule) then pure (fail (str "Rule document is required")) else (do
            resource ← build_rule_resource host load rule
            response ←
                call host current_user "securityAnalytics.updateWazuhRule"
                  (object (("ruleId", id) ∷ ("body", object (("resource", resource) ∷ [])) ∷ []))
            pure (succeed response)))
        (error_body_message host)

  unfoldable pub delete_rule : Request → Action Reply
  delete_rule request =
      handle
        (do
          id ← get host request.params "ruleId"
          response ←
              call host current_user "securityAnalytics.deleteWazuhRule"
                (object (("ruleId", id) ∷ []))
          pure (succeed (obj end)))
        (error_message host)
