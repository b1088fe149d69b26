-- ===== src/Server/WazuhRules/Lookup.antt =====
-- The query of a search for rules, and the integrations that the rules found belong to.
use wazuh_dashboard_security.Base.{
  false, not, ◌&&◌, List, [], ◌∷◌, ◌++◌, if◌then◌else◌, Option, none, some,
}
use wazuh_dashboard_security.Json.{
  Json, bool, str, arr, elems, object, array, truthy, nullish, or_else, opt, path, same_value,
}

-- space ?? getSpaceFromPrePackaged(prePackaged)
unfoldable pub space_or_pre_packaged : Json → Json → Json
space_or_pre_packaged (bool false) space = nullish space (str "custom")
space_or_pre_packaged _ space = nullish space (str "standard")

unfoldable pub build_query : Json → Json → Json → Json
unfolding space_or_pre_packaged opt
build_query pre_packaged incoming space =
    let filter = array (
      object (("term", object (("space.name", space_or_pre_packaged pre_packaged space) ∷ [])) ∷ [])
      ∷ []) in
    if truthy incoming && not (truthy (opt incoming "match_all"))
    then object (("bool", object (("filter", filter) ∷ ("must", array (incoming ∷ [])) ∷ [])) ∷ [])
    else object (("bool", object (("filter", filter) ∷ [])) ∷ [])

-- Map<string, any>: rule id to the entry of its integration.
abbrev pub RuleMap : Type 0
RuleMap = List (Json × Json)

unfoldable pub entry_of : Json → RuleMap → Option Json
unfolding same_value
entry_of id [] = none
entry_of id ((k, v) ∷ m) = if same_value k id then some v else entry_of id m

-- if (!has(id)) set(id, entry), for each id.
unfoldable pub add_rules : Json → List Json → RuleMap → RuleMap
unfolding entry_of
add_rules entry [] m = m
add_rules entry (id ∷ ids) m =
    add_rules entry ids (elim (entry_of id m) [ none ↦ m ++ (id, entry) ∷ [] | some v ↦ m ])

-- { document: { metadata, id } }
unfoldable pub rule_entry : Json → Json
unfolding path
rule_entry hit = object (
    (
      "document",
      object (
          ("metadata", path hit ("_source" ∷ "document" ∷ "metadata" ∷ []))
          ∷ ("id", path hit ("_source" ∷ "document" ∷ "id" ∷ []))
          ∷ []),
    )
    ∷ [])

-- integrationHit?._source?.document?.rules || []
unfoldable pub rules_of : Json → Json
unfolding path
rules_of hit = or_else (path hit ("_source" ∷ "document" ∷ "rules" ∷ [])) (array [])

-- The loop over the hits. What is no array has no forEach: the exception ends the loop, and the map
-- stays as it is then.
unfoldable pub add_hits : List Json → RuleMap → RuleMap
unfolding add_rules
add_hits [] m = m
add_hits (hit ∷ hits) m = elim (rules_of hit) [
  | arr ids ↦ add_hits hits (add_rules (rule_entry hit) (elems ids) m)
  | _ ↦ m
]

unfoldable pub collect : Json → RuleMap
unfolding add_hits path
collect response = elim (or_else (path response ("hits" ∷ "hits" ∷ [])) (array [])) [
  | arr hits ↦ add_hits (elems hits) []
  | _ ↦ []
]
