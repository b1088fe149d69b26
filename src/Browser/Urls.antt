-- ===== src/Browser/Urls.antt =====
-- The requests whose url does not simply end, or end in an id.
use wazuh_dashboard_security.Base.{String, List, Option, none, some, [], ◌∷◌, ◌≡◌, refl, arith}
use wazuh_dashboard_security.Json.{Json}
use wazuh_dashboard_security.Json.Text.{◌&◌}
use wazuh_dashboard_security.Server.Routes.{client, ClientHandler}
use wazuh_dashboard_security.Server.Routes.Table.{routes}
use wazuh_dashboard_security.Server.Routes.Matching.{fitting, answers, matches}
use wazuh_dashboard_security.Browser.{Page}
use wazuh_dashboard_security.Browser.Api
use wazuh_dashboard_security.Browser.Content
use wazuh_dashboard_security.Browser.Paths.{IsSegment, is_segment, are_plain, path_text, IsResolver}
use wazuh_dashboard_security.Browser.Answered.{handlers, Reaches, under, id-nonempty}
use text.Mathlib.TextLemmas.{append_assoc, append-nil}

-- Some urls go on behind an id.
pub ends_refresh : (s : String) → s & "/" & "_refresh" ≡ s & "/_refresh"
ends_refresh s = simp append_assoc

pub ends_alerts :
    (s : String) → s & "/" & "_acknowledge" & "/" & "alerts" ≡ s & "/_acknowledge/alerts"
ends_alerts s = simp append_assoc

ends_query : (s : String) → s & "?" & "space=" ≡ s & "?space="
ends_query s = simp append_assoc

module _ (resolve : String → List String) (resolver : IsResolver resolve) where
  -- The url of a log test is the only one that does not start with `..`.
  pub log_test-reach :
      (page : Page) (params : Json)
      → Reaches resolve (Content.execute_log_test page params, client ClientHandler.on_log_test)
  unfolding is_segment are_plain path_text Content.execute_log_test
  log_test-reach page params = record {
    only =
        rw (resolver.absolute (under ("logtest" ∷ [])) refl)
          (unfold handlers fitting answers matches routes in refl);
  }

  -- The space stands in the query of the url.
  decoder_url :
      (id : String) (space : Option String)
      → IsSegment id
      → resolve (".." & Api.decoders_base & "/" & id & Content.space_suffix space)
        ≡ under ("decoders" ∷ id ∷ [])
  unfolding is_segment are_plain path_text
  decoder_url id none good =
      rw (← resolver.relative (under ("decoders" ∷ id ∷ [])) (rw good refl))
        (simp (← append_assoc, append-nil))
  decoder_url id (some s) good =
      let segments = under ("decoders" ∷ id ∷ []) in
      let url : ".." & Api.decoders_base & "/" & id & ("?space=" & s)
          ≡ ".." & path_text segments & ("?" & ("space=" & s)) =
        simp (← append_assoc, append-nil, ends_query) in
      rw url (resolver.queried segments ("space=" & s) (rw good refl))

  pub decoder-reach :
      (page : Page) (id : String) (space : Json)
      → IsSegment id
      → Reaches resolve (Content.get_decoder page id space, client ClientHandler.on_get_decoder)
  unfolding Content.get_decoder
  decoder-reach page id space good = record {
    only =
        rw (decoder_url id (Content.unless_empty (Content.normalize_space space)) good)
          (unfold handlers fitting answers matches routes in ground (arith, id-nonempty id good));
  }
