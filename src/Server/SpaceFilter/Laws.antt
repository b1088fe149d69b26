-- ===== src/Server/SpaceFilter/Laws.antt =====
-- What applySpaceFilter keeps of the caller's query, and what it adds.
use wazuh_dashboard_security.Base.{
  String, true, false, List, [], ◌∷◌, ◌++◌, ◌≡◌, ◌≢◌, ◌∙◌, refl, if◌then◌else◌, arith, eq_iff,
  Bool-cases, inl, inr,
}
use wazuh_dashboard_security.Json.{
  Json, undefined, null, bool, num, str, arr, obj, nil, cons, end, field, Fields, array, truthy,
  opt, get_field, omit, spread, elems-items,
}
use wazuh_dashboard_security.Server.SpaceFilter.{
  apply_space_filter, build_space_filter, restrict, with_filter, as_list,
}

get_field-with_filter :
    (k : String) (fs : Fields) (l : List Json)
    → k ≢ "filter"
    → get_field k (with_filter fs l) ≡ get_field k fs
unfolding get_field
get_field-with_filter k end l h = ground (arith, eq_iff "filter" k)
get_field-with_filter k (field j v fs) l h = ground (arith, get_field-with_filter k fs l h)

get_field-omit : (k j : String) (fs : Fields) → k ≢ j → get_field k (omit j fs) ≡ get_field k fs
unfolding get_field omit
get_field-omit k j end h = refl
get_field-omit k j (field i v fs) h =
    ground (arith, eq_iff i j, eq_iff i k, eq_iff k j, get_field-omit k j fs h)

get_field-with_filter-omit :
    (fs : Fields) (l : List Json) → get_field "filter" (with_filter (omit "filter" fs) l) ≡ array l
unfolding get_field omit
get_field-with_filter-omit end l = refl
get_field-with_filter-omit (field j v fs) l =
    ground (arith, eq_iff j "filter", get_field-with_filter-omit fs l)

-- The clauses of a query's `bool`, and its filters.
abbrev pub clause : Json → String → Json
clause query k = opt (opt query "bool") k

abbrev pub filters_of : Json → List Json
filters_of query = as_list (clause query "filter")

opt-spread : (v : Json) (k : String) → get_field k (spread v) ≡ opt v k
unfolding opt get_field
opt-spread undefined k = refl
opt-spread _ k = refl

as_list-array : (vs : List Json) → as_list (array vs) ≡ vs
as_list-array vs = elems-items vs

restrict-filters :
    (q clauses f : Json)
    → filters_of (restrict q clauses f)
      ≡ (if truthy clauses then as_list (opt clauses "filter") else []) ++ f ∷ []
unfolding restrict opt
restrict-filters q clauses f = elim (Bool-cases (truthy clauses)) [
  | inl given ↦ rw given (
      rw (get_field-with_filter-omit (spread clauses) (as_list (opt clauses "filter") ++ f ∷ []))
        (as_list-array _))
  | inr missing ↦ rw missing
]

restrict-clause :
    (q clauses f : Json) (k : String)
    → k ≢ "filter"
    → truthy clauses ≡ true
    → clause (restrict q clauses f) k ≡ opt clauses k
unfolding restrict opt
restrict-clause q clauses f k h given = rw given (
    get_field-with_filter k _ _ h
    ∙ get_field-omit k "filter" (spread clauses) h
    ∙ opt-spread clauses k)

no_filters : (v : Json) → truthy v ≡ false → as_list (opt v "filter") ≡ []
unfolding opt
no_filters (arr vs) h = refl
no_filters (obj fs) h = cc
no_filters _ h = refl

guarded :
    (v : Json) (l : List Json)
    → (if truthy v then as_list (opt v "filter") else []) ++ l ≡ as_list (opt v "filter") ++ l
guarded v l = elim (Bool-cases (truthy v)) [
  | inl given ↦ rw given
  | inr missing ↦ rw (missing, no_filters v missing)
]

module _ (space : Json) (fs : List String) (given : truthy space ≡ true) where
  -- With a space, the query that is sent has the caller's filters, in their order, and then the
  -- filter of the space.
  pub apply_space_filter-filters :
      (q : Json)
      → filters_of (apply_space_filter q space fs)
        ≡ filters_of q ++ build_space_filter space fs ∷ []
  unfolding apply_space_filter opt get_field
  apply_space_filter-filters (arr nil) = ground arith
  apply_space_filter-filters (arr (cons v vs)) = ground arith
  apply_space_filter-filters (obj end) = ground arith
  apply_space_filter-filters (obj (field j v rest)) =
      let q = obj (field j v rest) in
      rw given
        (restrict-filters q (opt q "bool") (build_space_filter space fs) ∙ guarded (opt q "bool") _)
  apply_space_filter-filters (str t) = ground arith
  apply_space_filter-filters (num t) = ground arith
  apply_space_filter-filters (bool t) = ground arith
  apply_space_filter-filters undefined = rw given
  apply_space_filter-filters null = rw given

  -- With a space, a query that has a `bool` keeps all its clauses but the filters.
  pub apply_space_filter-keeps :
      (q : Json) (k : String)
      → k ≢ "filter"
      → truthy (opt q "bool") ≡ true
      → clause (apply_space_filter q space fs) k ≡ clause q k
  unfolding apply_space_filter opt
  apply_space_filter-keeps (obj (field j v rest)) k h has =
      let q = obj (field j v rest) in
      rw given (restrict-clause q (opt q "bool") (build_space_filter space fs) k h has)
  apply_space_filter-keeps (obj end) k h has = cc
  apply_space_filter-keeps _ k h has = cc
