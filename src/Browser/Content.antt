-- ===== src/Browser/Content.antt =====
-- public/services: DecodersService.ts, FiltersService.ts and LogTestService.ts. The methods for
-- decoders answer with `ok: false` where the http client rejects.
use wazuh_dashboard_security.Base.{String, false, [], ◌∷◌, Option, none, some, if◌then◌else◌, ◌==◌}
use wazuh_dashboard_security.Json.{
  Json, undefined, bool, str, obj, object, opt, path, or_else, nullish,
}
use wazuh_dashboard_security.Json.Text.{◌&◌}
use wazuh_dashboard_security.Server.Client.{Outcome, return, throw}
use wazuh_dashboard_security.Server.Routes.{Method}
use wazuh_dashboard_security.Browser.{
  HttpRequest, Exchange, send, Page, quietly, ask, json_body, ◌>>=◌,
}
use wazuh_dashboard_security.Browser.Api

abbrev text_of : Json → Option String
text_of (str s) = some s
text_of _ = none

-- The first property that is a text: name, id, value.
unfoldable pub named_space : Json → Option String
unfolding opt
named_space record_ = elim (text_of (opt record_ "name")) [
  | some s ↦ some s
  | none ↦ elim (text_of (opt record_ "id")) [
    | some s ↦ some s
    | none ↦ text_of (opt record_ "value")
  ]
]

-- An empty text is no space; an array has none of the three properties.
unfoldable pub normalize_space : Json → Option String
unfolding named_space
normalize_space (str s) = if s == "" then none else some s
normalize_space (obj fs) = named_space (obj fs)
normalize_space _ = none

unfoldable pub parse_http_error : Json → Json
unfolding path opt
parse_http_error error = or_else (path error ("body" ∷ "message" ∷ [])) (
    or_else (path error ("body" ∷ "error" ∷ []))
      (or_else (opt error "message") (str "Unknown error")))

-- catch (error) { return { ok: false, error: this.parseHttpError(error) }; }
unfoldable pub caught : Outcome Json → Outcome Json
unfolding parse_http_error
caught (return v) = return v
caught (throw error) = return (object (("ok", bool false) ∷ ("error", parse_http_error error) ∷ []))

unfoldable pub try_ask : HttpRequest → Exchange
unfolding caught
try_ask request = send request (λ result. quietly (caught result))

-- A name that is the empty text counts as no space.
abbrev pub unless_empty : Option String → Option String
unless_empty none = none
unless_empty (some s) = if s == "" then none else some s

abbrev pub space_suffix : Option String → String
space_suffix none = ""
space_suffix (some s) = "?space=" & s

module _ (page : Page) where
  unfoldable pub search_decoders : Json → Json → Exchange
  unfolding try_ask normalize_space
  search_decoders search space = try_ask (record {
    method = Method.post;
    url = ".." & Api.decoders_base & "/_search";
    query = elim (unless_empty (normalize_space space)) [
      | none ↦ object []
      | some s ↦ object (("space", str s) ∷ [])
    ];
    body = some (page.stringify search);
  })

  -- fetch, whose answer is read as a text and parsed by lossless-json.
  unfoldable pub get_decoder : String → Json → Exchange
  unfolding caught normalize_space
  get_decoder decoder_id space =
      send
        (record {
          method = Method.get;
          url =
              ".."
              & Api.decoders_base
              & "/"
              & decoder_id
              & space_suffix (unless_empty (normalize_space space));
          query = undefined;
          body = none;
        })
        (λ result. quietly (caught (result >>= page.lossless_parse)))

  unfoldable pub create_decoder : Json → Json → Exchange
  unfolding try_ask
  create_decoder document integration_id = try_ask (record {
    method = Method.post;
    url = ".." & Api.decoders_base;
    query = undefined;
    body = json_body page (
        object (
          ("documentJson", str (page.lossless_stringify document))
          ∷ ("integrationId", integration_id)
          ∷ []));
  })

  unfoldable pub update_decoder : String → Json → Exchange
  unfolding try_ask
  update_decoder decoder_id document = try_ask (record {
    method = Method.put;
    url = ".." & Api.decoders_base & "/" & decoder_id;
    query = undefined;
    body = json_body page (object (("documentJson", str (page.lossless_stringify document)) ∷ []));
  })

  unfoldable pub delete_decoder : String → Exchange
  unfolding try_ask
  delete_decoder decoder_id = try_ask (record {
    method = Method.delete;
    url = ".." & Api.decoders_base & "/" & decoder_id;
    query = undefined;
    body = none;
  })

  unfoldable pub get_draft_integrations : Exchange
  unfolding try_ask
  get_draft_integrations = try_ask (record {
    method = Method.get;
    url = ".." & Api.decoders_base & "/integrations/draft";
    query = undefined;
    body = none;
  })

  unfoldable pub search_filters : Json → Exchange
  search_filters params = ask (record {
    method = Method.post;
    url = ".." & Api.filters_base & "/_search";
    query = undefined;
    body = json_body page (nullish params (object []));
  })

  unfoldable pub create_filter : Json → Exchange
  create_filter filter = ask (record {
    method = Method.post;
    url = ".." & Api.filters_base;
    query = undefined;
    body = json_body page filter;
  })

  unfoldable pub update_filter : String → Json → Exchange
  update_filter filter_id filter = ask (record {
    method = Method.put;
    url = ".." & Api.filters_base & "/" & filter_id;
    query = undefined;
    body = json_body page filter;
  })

  unfoldable pub delete_filter : String → Exchange
  delete_filter filter_id = ask (record {
    method = Method.delete;
    url = ".." & Api.filters_base & "/" & filter_id;
    query = undefined;
    body = none;
  })

  unfoldable pub execute_log_test : Json → Exchange
  execute_log_test params = ask (record {
    method = Method.post;
    url = Api.log_test_base;
    query = undefined;
    body = json_body page params;
  })
