-- ===== src/Browser.antt =====
-- public/services: the requests that the browser makes of the server, and what its services do with
-- the answers. A method makes one request at most. The platform's http client, JSON.stringify,
-- lossless-json and toLowerCase are parameters.
pub mod Api
pub mod Detection
pub mod Alerts
pub mod Correlations
pub mod Content
pub mod Stored
pub mod Integrations
pub mod Sources
pub mod ThreatIntel
pub mod Telemetry
pub mod Paths
pub mod Asked
pub mod Answered
pub mod Urls
pub mod Reaches
mod Tests
use wazuh_dashboard_security.Base.{
  String, Bool, true, false, List, [], ◌∷◌, Option, none, some, if◌then◌else◌,
}
use wazuh_dashboard_security.Json.{
  Json, undefined, str, arr, obj, nil, cons, Items, object, is_nullish, opt, default, get_field,
}
use wazuh_dashboard_security.Json.Text.{◌&◌, contains}
use wazuh_dashboard_security.Server.Client.{Outcome, return, throw}
use wazuh_dashboard_security.Server.Routes.{Method}

-- The arguments of httpClient.get, post, put and delete: the query and the body where they are
-- given.
pub record HttpRequest : Type 0 where
  pub method : Method
  pub url : String
  pub query : Json
  pub body : Option String

pub data Toast : Type 0 where
  danger : (title : String) (text : Json) → Toast
  done : (title : String) (text : Json) → Toast

pub record Finished : Type 0 where
  pub promise : Outcome Json
  pub toasts : List Toast

-- What a method does: it answers by itself, or sends a request and goes on with what comes back.
pub data Exchange : Type 0 where
  answer : Json → Exchange
  send : HttpRequest → (Outcome Json → Finished) → Exchange

-- What the services take from elsewhere: JSON.stringify, stringify and parse of lossless-json,
-- toLowerCase, the engine's TypeError, and the id of the data source that is active.
pub record Page : Type 0 where
  pub stringify : Json → String
  pub lossless_stringify : Json → String
  pub lossless_parse : Json → Outcome Json
  pub to_lower_case : String → String
  pub type_error : Json
  pub data_source_id : Json

abbrev pub quietly : Outcome Json → Finished
quietly result = record { promise = result; toasts = [] }

-- The answer is passed on as it is.
abbrev pub ask : HttpRequest → Exchange
ask request = send request quietly

abbrev pub requests : Exchange → List HttpRequest
requests (answer v) = []
requests (send request finish) = request ∷ []

infixl 5 ◌>>=◌
abbrev pub ◌>>=◌ : Outcome Json → (Json → Outcome Json) → Outcome Json
return v >>= f = f v
throw error >>= f = throw error

module _ (page : Page) where
  -- The query of most requests: { dataSourceId }.
  abbrev pub scoped : Json
  scoped = object (("dataSourceId", page.data_source_id) ∷ [])

  abbrev pub json_body : Json → Option String
  json_body v = some (page.stringify v)

  -- v.k, which throws on undefined and null.
  unfoldable pub read : Json → String → Outcome Json
  unfolding opt
  read v k = if is_nullish v then throw page.type_error else return (opt v k)

  -- errorNotificationToast of utils/helpers: silent where no data source is connected.
  unfoldable pub error_toast : String → String → Json → List Toast
  unfolding contains
  error_toast action_name object_name error =
      let error_message = default error (str "") in
      if contains "no living connections" (page.to_lower_case (page.stringify error_message))
      then []
      else danger ("Failed to " & action_name & " " & object_name & ":") error_message ∷ []

-- successNotificationToast, with its default message.
unfoldable pub success_toast : String → String → List Toast
success_toast action_name object_name =
    done ("Successfully " & action_name & " " & object_name) (str "") ∷ []
