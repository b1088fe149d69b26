-- ===== src/Stores/Rules.antt =====
-- public/store/RulesStore.ts: the cache of rules in front of the rule service. The service is a
-- parameter, over what the server holds (`World`): requests for rules leave it as it is, writes may
-- change it. So are js-yaml, JSON.stringify of a call's arguments (`key`), toLowerCase, and the
-- list of rule types, which the log type store fills. A hit is an object.
pub mod Uncached
pub mod Refines
mod Tests
use wazuh_dashboard_security.Base.{
  String, Bool, true, false, not, List, [], ◌∷◌, ◌++◌, ◌==◌, if◌then◌else◌, Option, none, some,
  Dict, lookup, insert, map,
}
use wazuh_dashboard_security.Json.{
  Json, undefined, null, bool, num, str, arr, obj, Fields, end, field, text_array, object, opt,
  get_field, assign, spread, set_field,
}
use wazuh_dashboard_security.Json.Text.{contains}
use wazuh_dashboard_security.Server.Client.{Outcome, return, throw}
use wazuh_dashboard_security.Rules.Loaded.{JsYaml}

-- ServerResponse of server/models/types.ts.
pub data Response (A : Type 0) : Type 0 where
  ok : A → Response A
  not_ok : Option String → Response A

abbrev pub Terms : Type 0
Terms = Dict (List String)

pub data Write : Type 0 where
  create : Json → Write
  update : String → String → Json → Write
  delete : String → Write

pub record RuleService (World : Type 0) : Type 0 where
  pub get_rules : World → Bool → Json → Outcome (Response (List Fields))
  pub write : World → Write → Outcome (Response Unit) × World

-- A call of errorNotificationToast.
pub record Notice : Type 0 where
  pub action : String
  pub object_name : String
  pub error : Option String

pub record Store (World : Type 0) : Type 0 where
  pub cache : Dict (List Fields)
  pub notices : List Notice
  pub world : World

-- What the store's code takes from elsewhere.
pub record Library : Type 0 where
  pub js_yaml : JsYaml
  pub key : Bool → Option Terms → String
  pub lower : String → String
  pub rule_types : List String

abbrev pub terms_fields : Terms → Fields
terms_fields [] = end
terms_fields ((k, vs) ∷ terms) = field k (text_array vs) (terms_fields terms)

abbrev pub request_body : Terms → Json
request_body terms = object (
    ("from", num 0)
    ∷ ("size", num 5000)
    ∷ (
      "query",
      object (
          (
            "nested",
            object (
                ("path", str "rule")
                ∷ ("query", object (("terms", obj (terms_fields terms)) ∷ []))
                ∷ []),
          )
          ∷ []),
    )
    ∷ [])

-- { ...hit, _source: { ...hit._source, prePackaged }, prePackaged }
unfoldable pub marked : Bool → Fields → Fields
unfolding get_field assign
marked pre_packaged hit =
    let source =
      set_field "prePackaged" (bool pre_packaged) (assign end (spread (get_field "_source" hit))) in
    set_field "prePackaged" (bool pre_packaged) (set_field "_source" (obj source) (assign end hit))

-- !error?.includes('index doesnt exist')
unfoldable pub is_reported : Option String → Bool
unfolding contains
is_reported none = true
is_reported (some error) = not (contains "index doesnt exist" error)

module _ {World : Type 0} where
  abbrev pub notify : String → String → Option String → Store World → Store World
  notify action name error s = record s {
    notices = s.notices ++ record { action = action; object_name = name; error = error } ∷ [];
  }

  abbrev pub invalidate_cache : Store World → Store World
  invalidate_cache s = record s { cache = [] }

  -- What remains is done with what was returned; what was thrown is thrown on.
  abbrev pub then_do :
      {A B : Type 0}
      → Outcome A × Store World
      → (A → Store World → Outcome B × Store World)
      → Outcome B × Store World
  then_do (return a, s) f = f a s
  then_do (throw error, s) f = (throw error, s)

module _ (library : Library) where
  -- The terms of the request: those of the caller's object, whose categories are put in lower case.
  unfoldable pub terms_sent : Option Terms → Terms
  unfolding lookup insert
  terms_sent none = ("rule.category", map library.lower library.rule_types) ∷ []
  terms_sent (some terms) = elim (lookup "rule.category" terms) [
    | none ↦ terms
    | some categories ↦ insert "rule.category" (map library.lower categories) terms
  ]

  -- The caller's object after a call that was not answered from the cache.
  abbrev pub terms_after : Option Terms → Option Terms
  terms_after none = none
  terms_after (some terms) = some (terms_sent (some terms))

  -- load(rule).detection, printed again; an empty text where that throws.
  abbrev pub printed_or_empty : Outcome String → String
  printed_or_empty (return text) = text
  printed_or_empty (throw error) = ""

  abbrev pub dump_detection : Outcome Json → String
  dump_detection (throw error) = ""
  dump_detection (return undefined) = ""
  dump_detection (return null) = ""
  dump_detection (return v) = printed_or_empty (library.js_yaml.dump (opt v "detection"))

  unfoldable pub detection_yaml : Json → String
  unfolding opt
  detection_yaml undefined = ""
  detection_yaml null = ""
  detection_yaml (str rule) = dump_detection (library.js_yaml.load (str rule))
  detection_yaml v = dump_detection (library.js_yaml.load (opt v "rule"))

  -- typeof rule === 'string' ? _source : rule
  abbrev pub described_by : Json → Json → Json
  described_by source (str rule) = source
  described_by source v = v

  unfoldable pub with_detection : Fields → Fields
  unfolding detection_yaml assign set_field get_field
  with_detection hit =
      let source = get_field "_source" hit in
      let rule = opt source "rule" in
      set_field "_source"
        (obj (
          set_field "detection" (str (detection_yaml rule))
            (assign end (spread (described_by source rule)))))
        (assign end hit)

  abbrev pub validate_and_add_detection : List Fields → List Fields
  validate_and_add_detection rules = map with_detection rules

  module _ {World : Type 0} (service : RuleService World) where
    unfoldable pub received :
        Bool
        → Option Terms
        → Store World
        → Outcome (Response (List Fields))
        → Outcome (List Fields) × Store World
    unfolding insert marked is_reported
    received pre_packaged terms s (throw error) = (throw error, s)
    received pre_packaged terms s (return (not_ok error)) =
        (return [], if is_reported error then notify "retrieve" "rules" error s else s)
    received pre_packaged terms s (return (ok hits)) =
        let found = map (marked pre_packaged) hits in
        (return found, record s { cache = insert (library.key pre_packaged terms) found s.cache })

    -- An empty list in the cache is a hit, as it is an object.
    unfoldable pub read_or_request :
        Bool
        → Option Terms
        → Store World
        → Option (List Fields)
        → Outcome (List Fields) × Store World
    unfolding received terms_sent
    read_or_request pre_packaged terms s (some rules) = (return rules, s)
    read_or_request pre_packaged terms s none =
        received pre_packaged terms s
          (service.get_rules s.world pre_packaged (request_body (terms_sent terms)))

    unfoldable pub get_rules :
        Bool → Option Terms → Store World → Outcome (List Fields) × Store World
    unfolding read_or_request lookup
    get_rules pre_packaged terms s =
        read_or_request pre_packaged terms s (lookup (library.key pre_packaged terms) s.cache)

    -- Both requests are made with the same object of terms.
    unfoldable pub get_all_rules : Option Terms → Store World → Outcome (List Fields) × Store World
    unfolding get_rules with_detection
    get_all_rules terms s = then_do (get_rules false terms (invalidate_cache s)) (λ custom s.
        then_do (get_rules true (terms_after terms) s) (λ pre_packaged s. (
          return (validate_and_add_detection custom ++ validate_and_add_detection pre_packaged),
          s,
        )))

    -- What createRule, updateRule and deleteRule name in a notice.
    abbrev pub name_of : Write → String
    name_of (create rule) = "create"
    name_of (update id category rule) = "update"
    name_of (delete id) = "delete"

    abbrev pub written : String → Store World → Outcome (Response Unit) → Outcome Bool × Store World
    written action s (throw error) = (throw error, s)
    written action s (return (ok done)) = (return true, s)
    written action s (return (not_ok error)) = (return false, notify action "rule" error s)

    unfoldable pub write_rule : Write → Store World → Outcome Bool × Store World
    write_rule w s =
        let sent = service.write s.world w in
        written (name_of w) (record (invalidate_cache s) { world = sent.1 }) sent.0
