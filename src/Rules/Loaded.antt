-- ===== src/Rules/Loaded.antt =====
-- js-yaml, a parameter: load and dump, which may throw.
use wazuh_dashboard_security.Base.{String, false, ◌≡◌, ◌≢◌, ◌==◌, arith, eq_iff}
use wazuh_dashboard_security.Json.{Json, str}
use wazuh_dashboard_security.Server.Client.{Outcome, return}

pub record JsYaml : Type 0 where
  pub load : Json → Outcome Json
  pub dump : Json → Outcome String

-- The value is printed, to a text that is not empty and that is read back as the same value.
pub record IsReadBack (js_yaml : JsYaml) (value : Json) : Type 0 where
  pub text : String
  pub printed : js_yaml.dump value ≡ return text
  pub parsed : js_yaml.load (str text) ≡ return value
  pub non_empty : text ≢ ""

pub not_empty : (text : String) → text ≢ "" → (text == "") ≡ false
not_empty text h = ground (arith, eq_iff text "")
