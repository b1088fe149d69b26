-- ===== src/Server/Yaml.antt =====
-- buildYamlBody of server/utils/helpers.ts, over the yaml package, which is a parameter: parsing a
-- text to a node, and printing a document of entries. Both may throw.
use wazuh_dashboard_security.Base.{[], ◌∷◌, ◌≡◌, refl, Dict, insert}
use wazuh_dashboard_security.Json.{Json, str, object}
use wazuh_dashboard_security.Server.Client.{Outcome, return, throw, IsError, Action, ◌>>=◌}
use wazuh_dashboard_security.Server.Safe.{IsSafe, bind-IsSafe, quiet-IsSafe}

pub record Yaml : Type 0 where
  pub parse : Json → Outcome Json
  pub print : Dict Json → Outcome Json

-- What the package throws are errors.
pub record YamlIsRegular (yaml : Yaml) : Type 0 where
  pub parse_errors : (text error : Json) → yaml.parse text ≡ throw error → IsError error
  pub print_errors :
      (doc : Dict Json) → (error : Json) → yaml.print doc ≡ throw error → IsError error

-- { query: { match_all: {} } }
abbrev pub match_all : Json
match_all = object (("query", object (("match_all", object []) ∷ [])) ∷ [])

abbrev pub yaml_headers : Json
yaml_headers = object (("Content-Type", str "application/yaml") ∷ [])

-- What throws or returns at once, as an action.
abbrev pub lift : Outcome Json → Action Json
lift r s = (r, s)

-- doc.set(key, value), for each entry.
unfoldable pub set_entries : Dict Json → Dict Json → Dict Json
unfolding insert
set_entries [] doc = doc
set_entries ((key, value) ∷ entries) doc = set_entries entries (insert key value doc)

unfoldable pub build_yaml_body : Yaml → Json → Dict Json → Action Json
unfolding set_entries insert
build_yaml_body yaml resource params = do
  contents ← lift (yaml.parse resource)
  lift (yaml.print (insert "resource" contents (set_entries params [])))

pub lift-IsSafe :
    (r : Outcome Json) → ((error : Json) → r ≡ throw error → IsError error) → IsSafe (lift r)
lift-IsSafe (return v) h = quiet-IsSafe _ (λ s. tt) (λ s. refl)
lift-IsSafe (throw error) h = quiet-IsSafe _ (λ s. h error refl) (λ s. refl)

module _ {yaml : Yaml} (regular : YamlIsRegular yaml) where
  pub build_yaml_body-IsSafe :
      (resource : Json) (params : Dict Json) → IsSafe (build_yaml_body yaml resource params)
  unfolding build_yaml_body
  build_yaml_body-IsSafe resource params =
      bind-IsSafe _ _ (lift-IsSafe (yaml.parse resource) (regular.parse_errors resource))
        (λ contents. lift-IsSafe _ (regular.print_errors _))
