-- ===== src/Server/Decoders/Titles.antt =====
-- The map from decoders to the titles of their integrations, against a direct description.
use wazuh_dashboard_security.Base.{
  Bool, true, false, List, [], ◌∷◌, ◌++◌, ◌≡◌, refl, ap, ◌&&◌, ◌||◌, arith, eq_iff, nat_eq_iff, any,
  none, some,
}
use wazuh_dashboard_security.Json.{Json, undefined, null, bool, num, str, truthy, path, same_value}
use wazuh_dashboard_security.Server.Decoders.{
  IntegrationMap, titles_of, has_value, add_title, add_integration, add_all, refs_list,
  collect_hits,
}

-- Equal values are one value.
pub same_value→eq : (a b : Json) → same_value a b ≡ true → a ≡ b
unfolding same_value
same_value→eq undefined undefined h = refl
same_value→eq null null h = refl
same_value→eq (bool true) (bool true) h = refl
same_value→eq (bool false) (bool false) h = refl
same_value→eq (num m) (num n) h = ap num ((nat_eq_iff m n).0 h)
same_value→eq (str s) (str t) h = ap str ((eq_iff s t).0 h)
same_value→eq _ _ h = cc

-- The titles of a decoder, none if it has no entry.
abbrev pub titles : Json → IntegrationMap → List Json
titles id m = elim (titles_of id m) [ none ↦ [] | some found ↦ found ]

has_value-append :
    (t v : Json) (ts : List Json) → has_value t (ts ++ v ∷ []) ≡ has_value t ts || same_value v t
has_value-append t v [] = ground arith
has_value-append t v (x ∷ xs) = ground (arith, has_value-append t v xs)

has_value-add_title :
    (t title : Json) (ts : List Json)
    → has_value t (add_title title ts) ≡ has_value t ts || (truthy title && same_value title t)
unfolding add_title
has_value-add_title t title ts = ground (arith, has_value-append t title ts, same_value→eq title t)

titles-add_integration :
    (t id title j : Json) (m : IntegrationMap)
    → has_value t (titles id (add_integration title j m))
      ≡ has_value t (titles id m) || (same_value j id && (truthy title && same_value title t))
unfolding titles_of add_integration
titles-add_integration t id title j [] = ground (arith, has_value-add_title t title [])
titles-add_integration t id title j ((k, ts) ∷ m) = ground (
  arith,
  has_value-add_title t title ts,
  titles-add_integration t id title j m,
  same_value→eq k j,
  same_value→eq j id,
)

-- The hit contributes the title to the decoder.
unfoldable pub title_in : Json → Json
unfolding path
title_in hit = path hit ("_source" ∷ "document" ∷ "metadata" ∷ "title" ∷ [])

unfoldable pub refs_in : Json → List Json
unfolding path
refs_in hit = refs_list (path hit ("_source" ∷ "document" ∷ "decoders" ∷ []))

unfoldable pub contributes : Json → Json → Json → Bool
contributes id t hit =
    has_value id (refs_in hit) && (truthy (title_in hit) && same_value (title_in hit) t)

titles-add_all :
    (t id title : Json) (js : List Json) (m : IntegrationMap)
    → has_value t (titles id (add_all title js m))
      ≡ has_value t (titles id m) || (has_value id js && (truthy title && same_value title t))
unfolding add_all
titles-add_all t id title [] m = ground arith
titles-add_all t id title (j ∷ js) m = ground (
  arith,
  titles-add_all t id title js (add_integration title j m),
  titles-add_integration t id title j m,
)

titles-collect_hits :
    (t id : Json) (hits : List Json) (m : IntegrationMap)
    → has_value t (titles id (collect_hits hits m))
      ≡ has_value t (titles id m) || any (contributes id t) hits
unfolding collect_hits contributes title_in refs_in path
titles-collect_hits t id [] m = ground arith
titles-collect_hits t id (hit ∷ hits) m =
    let title = title_in hit in
    let refs = refs_in hit in
    ground (
      arith,
      titles-collect_hits t id hits (add_all title refs m),
      titles-add_all t id title refs m,
    )

-- A title is listed for a decoder exactly if some hit of the search has that title, not empty,
-- and refers to the decoder.
pub collect_hits-lists :
    (t id : Json) (hits : List Json)
    → has_value t (titles id (collect_hits hits [])) ≡ any (contributes id t) hits
unfolding titles_of
collect_hits-lists t id hits = titles-collect_hits t id hits []
