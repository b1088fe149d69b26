-- ===== src/Stores/Rules/Tests.antt =====
-- Operations of the rules store, before a server that holds a list of hits.
use wazuh_dashboard_security.Base.{
  String, Bool, true, false, List, [], ◌∷◌, ◌++◌, ◌≡◌, refl, sym, ◌∙◌, arith, eq_iff, Option, some,
  if◌then◌else◌,
}
use wazuh_dashboard_security.Json.{str, Fields, end, field, object}
use wazuh_dashboard_security.Server.Client.{return}
use wazuh_dashboard_security.Rules.Loaded.{JsYaml}
use wazuh_dashboard_security.Stores.Rules.{
  ok, Terms, create, RuleService, Store, Library, terms_sent,
}
use wazuh_dashboard_security.Stores.Rules.Uncached.{
  Operation, read, read_all, change, perform_all, serve_all,
}
use wazuh_dashboard_security.Stores.Rules.Refines.{AreSeparate, perform_all-serve_all}

abbrev hit : Fields
hit = field "_id" (str "1") end

abbrev server : RuleService (List Fields)
server = record {
  get_rules = λ world pre_packaged body. return (ok world);
  write = λ world w. (return (ok tt), hit ∷ world);
}

abbrev js_yaml : JsYaml
js_yaml = record { load = λ v. return (object []); dump = λ v. return "" }

abbrev library : Library
library = record {
  js_yaml = js_yaml;
  key = λ pre_packaged terms. if pre_packaged then "true" else "false";
  lower = λ s. s;
  rule_types = [];
}

abbrev terms : Terms
terms = ("rule.category", "linux" ∷ []) ∷ []

abbrev Asked : Bool → Option Terms → Type 0
Asked pre_packaged given = given ≡ some terms

same_key :
    (p q : Bool)
    → ◌≡◌ {A = String} (if p then "true" else "false") (if q then "true" else "false")
    → p ≡ q
same_key true true e = refl
same_key false false e = refl
same_key true false e = absurd (ground (arith, e, eq_iff "true" "false"))
same_key false true e = absurd (ground (arith, e, eq_iff "false" "true"))

separate : AreSeparate library Asked
separate p q t u a b e = (same_key p q e, a ∙ sym b)

abbrev operations : List Operation
operations =
    read false (some terms)
    ∷ read false (some terms)
    ∷ change (create (str "rule"))
    ∷ read false (some terms)
    ∷ read_all (some terms)
    ∷ []

abbrev start : Store (List Fields)
start = record { cache = []; notices = []; world = [] }

perform_all-serve_all_example :
    ((perform_all library server operations start).0 ≡ (serve_all library server operations []).0)
    × ((perform_all library server operations start).1.notices
        ≡ [] ++ (serve_all library server operations []).1.0)
    × ((perform_all library server operations start).1.world
        ≡ (serve_all library server operations []).1.1)
unfolding terms_sent
perform_all-serve_all_example =
    perform_all-serve_all library Asked server separate operations start
      (refl, (refl, (tt, (refl, ((refl, refl), tt))))) refl
