-- ===== src/Browser/Detection.antt =====
-- public/services/DetectorService.ts.
use wazuh_dashboard_security.Base.{String, true, false, [], ◌∷◌, none, if◌then◌else◌}
use wazuh_dashboard_security.Json.{
  at_zero, Json, bool, num, str, object, text_array, truthy, opt, path, or_else, nullish,
}
use wazuh_dashboard_security.Json.Text.{◌&◌}
use wazuh_dashboard_security.Server.Client.{Outcome, return}
use wazuh_dashboard_security.Server.Routes.{Method}
use wazuh_dashboard_security.Browser.{
  Exchange, send, Page, quietly, ask, scoped, json_body, read, ◌>>=◌,
}
use wazuh_dashboard_security.Browser.Api

abbrev match_all : Json
match_all = object (("query", object (("match_all", object []) ∷ [])) ∷ [])

module _ (page : Page) where
  unfoldable pub create_detector : Json → Exchange
  create_detector detector = ask (record {
    method = Method.post;
    url = ".." & Api.detectors_base;
    query = scoped page;
    body = json_body page detector;
  })

  unfoldable pub get_detectors : Json → Exchange
  unfolding opt
  get_detectors source = ask (record {
    method = Method.post;
    url = ".." & Api.search_detectors;
    query = object (("dataSourceId", or_else (opt source "id") page.data_source_id) ∷ []);
    body = json_body page match_all;
  })

  unfoldable pub found_detector : String → Json → Json
  unfolding opt
  found_detector id hit =
      if truthy hit
      then object (
          ("ok", bool true)
          ∷ (
            "response",
            object (
                ("_id", opt hit "_id")
                ∷ ("_version", nullish (opt hit "_version") (num 1))
                ∷ ("detector", opt hit "_source")
                ∷ []),
          )
          ∷ [])
      else object (("ok", bool false) ∷ ("error", str ("Detector " & id & " not found")) ∷ [])

  unfoldable pub detector_of_search : String → Json → Outcome Json
  unfolding read found_detector path
  detector_of_search id res = read page res "ok" >>= λ ok.
      if truthy ok
      then return (found_detector id (at_zero (path res ("response" ∷ "hits" ∷ "hits" ∷ []))))
      else return res

  unfoldable pub get_detector_with_id : String → Exchange
  unfolding detector_of_search
  get_detector_with_id id =
      send
        (record {
          method = Method.post;
          url = ".." & Api.search_detectors;
          query = scoped page;
          body = json_body page (
              object (
                ("size", num 1)
                ∷ ("query", object (("ids", object (("values", text_array (id ∷ [])) ∷ [])) ∷ []))
                ∷ []));
        })
        (λ result. quietly (result >>= detector_of_search id))

  unfoldable pub update_detector : String → Json → Exchange
  update_detector detector_id detector = ask (record {
    method = Method.put;
    url = ".." & Api.detectors_base & "/" & detector_id;
    query = scoped page;
    body = json_body page detector;
  })

  unfoldable pub delete_detector : String → Exchange
  delete_detector detector_id = ask (record {
    method = Method.delete;
    url = ".." & Api.detectors_base & "/" & detector_id;
    query = scoped page;
    body = none;
  })
