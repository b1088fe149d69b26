-- ===== src/Server/SpaceCaps.antt =====
-- getSpaceFieldCaps of DecodersService and PoliciesService (the two are the same code but for the
-- index), for handlers that run one after another: the promise is then always settled, so the
-- cached value stands for both fields of the class.
pub mod Laws
use wazuh_dashboard_security.Base.{
  Option, String, Bool, false, not, List, [], ◌∷◌, none, some, ◌&&◌, ◌||◌, ◌==◌, if◌then◌else◌,
  Dict,
}
use wazuh_dashboard_security.Json.{
  Json, obj, end, str, text_array, object, props, truthy, nullish, opt, path,
}
use wazuh_dashboard_security.Server.Client.{
  Target, Host, SpaceFieldCaps, Action, return, call, try_catch, ◌>>=◌,
}

abbrev pub space_field_candidates : List String
space_field_candidates =
    "space.keyword" ∷ "space" ∷ "space.name.keyword" ∷ "space.name" ∷ "document.space.keyword"
    ∷ "document.space" ∷ "document.space.name.keyword" ∷ "document.space.name" ∷ []

-- Object.entries(types)
abbrev pub entries : Json → Dict Json
entries (obj fs) = props fs
entries _ = []

-- One of the types of the field has the capability, and is neither "object" nor "nested".
unfoldable pub has_capability : String → Dict Json → Bool
unfolding opt
has_capability capability [] = false
has_capability capability ((type, meta) ∷ rest) =
    (truthy (opt meta capability) && (not (type == "object") && not (type == "nested")))
    || has_capability capability rest

-- The loop over the candidates: those that have the capability, in order.
unfoldable pub fields_with : String → Json → List String → List String
unfolding opt has_capability
fields_with capability found [] = []
fields_with capability found (f ∷ fs) =
    let types = opt found f in
    let rest = fields_with capability found fs in
    if truthy types && has_capability capability (entries types) then f ∷ rest else rest

-- searchFields.length ? searchFields : SPACE_FIELD_CANDIDATES
abbrev pub or_candidates : List String → List String
or_candidates [] = space_field_candidates
or_candidates (f ∷ fs) = f ∷ fs

unfoldable pub caps_of : Json → SpaceFieldCaps
unfolding path fields_with
caps_of response =
    let found = nullish (path response ("fields" ∷ [])) (obj end) in
    record {
      search_fields = or_candidates (fields_with "searchable" found space_field_candidates);
      agg_fields = or_candidates (fields_with "aggregatable" found space_field_candidates);
    }

abbrev pub fallback_caps : SpaceFieldCaps
fallback_caps = record {
  search_fields = space_field_candidates;
  agg_fields = space_field_candidates;
}

unfoldable pub remember : SpaceFieldCaps → Action SpaceFieldCaps
remember caps s = (return caps, record s { caps = some caps })

-- The body of the promise: it resolves in every case, and sets the cache.
unfoldable pub fetch_space_field_caps : Host → Target → String → Action SpaceFieldCaps
fetch_space_field_caps host client index =
    try_catch
      (do
        response ←
            call host client "fieldCaps"
              (object (("index", str index) ∷ ("fields", text_array space_field_candidates) ∷ []))
        remember (caps_of response))
      (λ error. remember fallback_caps)

-- if (this.spaceFieldCaps) { return this.spaceFieldCaps; } …
unfoldable pub cached_or_fetch :
    Host → Target → String → Option SpaceFieldCaps → Action SpaceFieldCaps
cached_or_fetch host client index (some caps) s = (return caps, s)
cached_or_fetch host client index none s = fetch_space_field_caps host client index s

unfoldable pub get_space_field_caps : Host → Target → String → Action SpaceFieldCaps
unfolding cached_or_fetch
get_space_field_caps host client index s = cached_or_fetch host client index s.caps s
