-- ===== src/Server/SpaceFilter.antt =====
-- buildSpaceFilter and applySpaceFilter of DecodersService and PoliciesService (the same code in
-- both): a query of the caller is restricted to the documents of one space.
pub mod Laws
use wazuh_dashboard_security.Base.{
  String, Bool, true, false, List, [], ◌∷◌, ◌++◌, map, if◌then◌else◌, ◌==◌,
}
use wazuh_dashboard_security.Json.{
  Json, num, str, arr, obj, cons, end, field, elems, object, array, truthy, nullish, opt, spread,
  omit, Fields,
}

unfoldable pub build_space_filter : Json → List String → Json
build_space_filter space search_fields = object (
    (
      "bool",
      object (
          (
            "should",
            array (map (λ f. object (("term", object ((f, space) ∷ [])) ∷ [])) search_fields),
          )
          ∷ ("minimum_should_match", num 1)
          ∷ []),
    )
    ∷ [])

-- Object.keys(v).length === 0, of a truthy value.
abbrev pub has_no_keys : Json → Bool
has_no_keys (obj (field _ _ _)) = false
has_no_keys (arr (cons _ _)) = false
has_no_keys (str s) = s == ""
has_no_keys _ = true

-- Array.isArray(filter) ? filter : filter ? [filter] : []
abbrev pub as_list : Json → List Json
as_list (arr vs) = elems vs
as_list v = if truthy v then v ∷ [] else []

-- { ...restBool, filter: […] }
abbrev pub with_filter : Fields → List Json → Fields
with_filter end fs = field "filter" (array fs) end
with_filter (field k v rest) fs = field k v (with_filter rest fs)

-- The part of applySpaceFilter for a query with keys, given its `bool`.
unfoldable pub restrict : Json → Json → Json → Json
unfolding opt omit
restrict query clauses space_filter =
    if truthy clauses
    then object (
        (
          "bool",
          obj (
              with_filter (omit "filter" (spread clauses))
                (as_list (opt clauses "filter") ++ space_filter ∷ [])),
        )
        ∷ [])
    else object (
        ("bool", object (("must", array (query ∷ [])) ∷ ("filter", array (space_filter ∷ [])) ∷ []))
        ∷ [])

abbrev only_filter : Json → Json
only_filter space_filter =
    object (("bool", object (("filter", array (space_filter ∷ [])) ∷ [])) ∷ [])

unfoldable pub apply_space_filter : Json → Json → List String → Json
unfolding build_space_filter opt restrict
apply_space_filter query space search_fields =
    let space_filter = build_space_filter space search_fields in
    if truthy space
    then (if truthy query
        then (if has_no_keys query
            then only_filter space_filter
            else restrict query (opt query "bool") space_filter)
        else only_filter space_filter)
    else nullish query (object (("match_all", obj end) ∷ []))
