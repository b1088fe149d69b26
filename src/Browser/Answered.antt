-- ===== src/Browser/Answered.antt =====
-- What it takes for a request to be answered by one handler.
use wazuh_dashboard_security.Base.{
  String, true, false, List, [], ◌∷◌, ◌++◌, ◌≡◌, ◌==◌, arith, map, all,
}
use wazuh_dashboard_security.Json.Text.{◌&◌}
use wazuh_dashboard_security.Server.Routes.{Method, Handler}
use wazuh_dashboard_security.Server.Routes.Table.{routes}
use wazuh_dashboard_security.Server.Routes.Matching.{fitting}
use wazuh_dashboard_security.Browser.{HttpRequest, Exchange, answer, send}
use wazuh_dashboard_security.Browser.Paths.{
  IsSegment, AreSegments, is_segment, path_text, IsResolver,
}
use text.Mathlib.TextLemmas.{append_assoc, append-nil}

-- The handlers of the routes that fit.
unfoldable pub handlers : Method → List String → List Handler
unfolding fitting
handlers method segments = map (λ r. r.handler) (fitting method segments routes)

-- Exactly one route fits, and it has the handler.
pub record IsAnswered (resolve : String → List String) (request : HttpRequest) (h : Handler)
    : Type 0 where
  pub only : handlers request.method (resolve request.url) ≡ h ∷ []

-- A request is made, and the handler answers it.
abbrev pub Reaches : (String → List String) → Exchange × Handler → Type 0
Reaches resolve (answer v, h) = ⊥
Reaches resolve (send request finish, h) = IsAnswered resolve request h

abbrev pub under : List String → List String
under segments = "_plugins" ∷ "_security_analytics" ∷ segments

pub id-nonempty : (id : String) → IsSegment id → (id == "") ≡ false
unfolding is_segment
id-nonempty id h = ground (arith, h)

path_text-append :
    (ss : List String) (id : String) → path_text (ss ++ id ∷ []) ≡ path_text ss & "/" & id
unfolding path_text
path_text-append [] id = simp append-nil
path_text-append (s ∷ ss) id = rw (path_text-append ss id) (simp append_assoc)

all-append :
    (ss : List String) (id : String)
    → all is_segment ss ≡ true
    → IsSegment id
    → all is_segment (ss ++ id ∷ []) ≡ true
all-append [] id h good = ground (arith, good)
all-append (s ∷ ss) id h good = ground (arith, h, all-append ss id (ground (arith, h)) good)

module _ (resolve : String → List String) (resolver : IsResolver resolve) where
  pub at_path :
      {request : HttpRequest} {h : Handler} (segments : List String)
      → AreSegments segments
      → request.url ≡ ".." & path_text segments
      → handlers request.method segments ≡ h ∷ []
      → IsAnswered resolve request h
  at_path {request = request} segments good url found = record {
    only = rw (url, resolver.relative segments good) found;
  }

  -- The id stands at the end.
  pub at_item :
      {request : HttpRequest} {h : Handler} (segments : List String) (id : String)
      → AreSegments (under segments)
      → IsSegment id
      → request.url ≡ ".." & path_text (under segments) & "/" & id
      → ((id == "") ≡ false → handlers request.method (under (segments ++ id ∷ [])) ≡ h ∷ [])
      → IsAnswered resolve request h
  at_item segments id segments_good good url found =
      at_path (under (segments ++ id ∷ [])) (all-append (under segments) id segments_good good)
        (rw (url, path_text-append (under segments) id) (simp append_assoc))
        (found (id-nonempty id good))
