-- ===== src/Stores/Rules/Uncached.antt =====
-- What the rules store of public/store/RulesStore.ts promises, without a cache: each read is a
-- request to the server. Sequences of operations, with the cache and without.
use wazuh_dashboard_security.Base.{
  String, Bool, true, false, List, [], ◌∷◌, ◌++◌, if◌then◌else◌, Option, map,
}
use wazuh_dashboard_security.Json.{Fields}
use wazuh_dashboard_security.Server.Client.{Outcome, return, throw}
use wazuh_dashboard_security.Stores.Rules.{
  Response, ok, not_ok, Terms, Write, RuleService, Notice, Store, Library, request_body, marked,
  is_reported, terms_sent, terms_after, validate_and_add_detection, get_rules, get_all_rules,
  name_of, write_rule,
}

pub data Operation : Type 0 where
  read : Bool → Option Terms → Operation
  read_all : Option Terms → Operation
  change : Write → Operation

pub data Result : Type 0 where
  rules : Outcome (List Fields) → Result
  changed : Outcome Bool → Result

module _ (library : Library) {World : Type 0} (service : RuleService World) where
  abbrev pub tagged :
      {A : Type 0} → (Outcome A → Result) → Outcome A × Store World → Result × Store World
  tagged tag (r, s) = (tag r, s)

  unfoldable pub perform : Operation → Store World → Result × Store World
  unfolding get_rules get_all_rules write_rule
  perform (read pre_packaged terms) s =
      tagged rules (get_rules library service pre_packaged terms s)
  perform (read_all terms) s = tagged rules (get_all_rules library service terms s)
  perform (change w) s = tagged changed (write_rule library service w s)

  unfoldable pub perform_all : List Operation → Store World → List Result × Store World
  unfolding perform
  perform_all [] s = ([], s)
  perform_all (op ∷ ops) s =
      let first = perform op s in let rest = perform_all ops first.1 in (first.0 ∷ rest.0, rest.1)

-- The answer to a request, and the notices it leads to.
unfoldable pub answer :
    Bool → Outcome (Response (List Fields)) → Outcome (List Fields) × List Notice
unfolding is_reported marked
answer pre_packaged (throw error) = (throw error, [])
answer pre_packaged (return (ok hits)) = (return (map (marked pre_packaged) hits), [])
answer pre_packaged (return (not_ok error)) = (
  return [],
  if is_reported error
      then record { action = "retrieve"; object_name = "rules"; error = error } ∷ []
      else [],
)

-- The second request is made where the first one returned.
abbrev pub and_then :
    {A B : Type 0}
    → Outcome A × List Notice
    → (A → Outcome B × List Notice)
    → Outcome B × List Notice
and_then (return a, notices) f = ((f a).0, notices ++ (f a).1)
and_then (throw error, notices) f = (throw error, notices)

module _ (library : Library) {World : Type 0} (service : RuleService World) where
  unfoldable pub ask : World → Bool → Option Terms → Outcome (List Fields) × List Notice
  unfolding answer terms_sent
  ask world pre_packaged terms =
      answer pre_packaged
        (service.get_rules world pre_packaged (request_body (terms_sent library terms)))

  unfoldable pub ask_all : World → Option Terms → Outcome (List Fields) × List Notice
  unfolding ask
  ask_all world terms = and_then (ask world false terms) (λ custom.
      and_then (ask world true (terms_after library terms)) (λ pre_packaged. (
        return (
            validate_and_add_detection library custom
            ++ validate_and_add_detection library pre_packaged),
        [],
      )))

  abbrev pub outcome_of : String → Outcome (Response Unit) → Outcome Bool × List Notice
  outcome_of action (throw error) = (throw error, [])
  outcome_of action (return (ok done)) = (return true, [])
  outcome_of action (return (not_ok error)) =
      (return false, record { action = action; object_name = "rule"; error = error } ∷ [])

  -- What the server holds after an operation, its result and its notices.
  unfoldable pub serve : Operation → World → Result × (List Notice × World)
  unfolding ask_all
  serve (read pre_packaged terms) world =
      let asked = ask world pre_packaged terms in (rules asked.0, (asked.1, world))
  serve (read_all terms) world =
      let asked = ask_all world terms in (rules asked.0, (asked.1, world))
  serve (change w) world =
      let sent = service.write world w in
      let reply = outcome_of (name_of library service w) sent.0 in
      (changed reply.0, (reply.1, sent.1))

  unfoldable pub serve_all : List Operation → World → List Result × (List Notice × World)
  unfolding serve
  serve_all [] world = ([], ([], world))
  serve_all (op ∷ ops) world =
      let first = serve op world in
      let rest = serve_all ops first.1.1 in (first.0 ∷ rest.0, (first.1.0 ++ rest.1.0, rest.1.1))
