-- ===== src/Server/WazuhRules/Entries.antt =====
-- Which integration a rule is shown with.
use wazuh_dashboard_security.Base.{
  Bool, List, [], ◌∷◌, ◌++◌, ◌≡◌, refl, if◌then◌else◌, Option, none, some, arith, any, Option-cases,
  inl, inr,
}
use wazuh_dashboard_security.Json.{Json, arr, elems, same_value}
use wazuh_dashboard_security.Server.Decoders.Titles.{same_value→eq}
use wazuh_dashboard_security.Server.WazuhRules.{
  RuleMap, entry_of, add_rules, rule_entry, rules_of, add_hits,
}

abbrev pub lists : Json → List Json → Bool
lists id ids = any (λ j. same_value j id) ids

-- A direct description: the entry of the first hit that lists the rule, before a hit whose rules
-- are no array.
abbrev pub first_listing : Json → List Json → Option Json
first_listing id [] = none
first_listing id (hit ∷ hits) = elim (rules_of hit) [
  | arr ids ↦ if lists id (elems ids) then some (rule_entry hit) else first_listing id hits
  | _ ↦ none
]

abbrev or_entry : Option Json → Option Json → Option Json
or_entry (some v) o = some v
or_entry none o = o

entry_of-append :
    (id j v : Json) (m : RuleMap)
    → entry_of id (m ++ (j, v) ∷ [])
      ≡ or_entry (entry_of id m) (if same_value j id then some v else none)
unfolding entry_of
entry_of-append id j v [] = refl
entry_of-append id j v ((k, w) ∷ m) = ground (arith, entry_of-append id j v m)

entry_of-add_rules :
    (id entry : Json) (ids : List Json) (m : RuleMap)
    → entry_of id (add_rules entry ids m)
      ≡ or_entry (entry_of id m) (if lists id ids then some entry else none)
unfolding add_rules
entry_of-add_rules id entry [] m = ground arith
entry_of-add_rules id entry (j ∷ ids) m = elim (Option-cases (entry_of j m)) [
  | inl missing ↦
      rw (missing, add_rules)
        (ground (
          arith,
          entry_of-add_rules id entry ids (m ++ (j, entry) ∷ []),
          entry_of-append id j entry m,
          same_value→eq j id,
        ))
  | inr (v, found) ↦
      rw (found, add_rules) (ground (arith, entry_of-add_rules id entry ids m, same_value→eq j id))
]

entry_of-add_hits :
    (id : Json) (hits : List Json) (m : RuleMap)
    → entry_of id (add_hits hits m) ≡ or_entry (entry_of id m) (first_listing id hits)
unfolding add_hits
entry_of-add_hits id [] m = ground arith
entry_of-add_hits id (hit ∷ hits) m = go (rules_of hit) (λ n. entry_of-add_hits id hits n)
  where
    go :
        (rules : Json)
        → ((n : RuleMap)
            → entry_of id (add_hits hits n) ≡ or_entry (entry_of id n) (first_listing id hits))
        → entry_of id (elim rules [
          | arr ids ↦ add_hits hits (add_rules (rule_entry hit) (elems ids) m)
          | _ ↦ m
        ])
          ≡ or_entry (entry_of id m) (elim rules [
            | arr ids ↦
                if lists id (elems ids) then some (rule_entry hit) else first_listing id hits
            | _ ↦ none
          ])
    go (arr ids) ih = ground (
      arith,
      ih (add_rules (rule_entry hit) (elems ids) m),
      entry_of-add_rules id (rule_entry hit) (elems ids) m,
    )
    go _ ih = ground arith

-- A rule is shown with the integration of the first hit that lists it, and with none if no hit
-- does; a hit whose rules are no array, and those after it, count for nothing.
pub add_hits-first :
    (id : Json) (hits : List Json) → entry_of id (add_hits hits []) ≡ first_listing id hits
unfolding entry_of
add_hits-first id hits = entry_of-add_hits id hits []
