-- ===== src/Spaces.antt =====
-- Spaces, and what a user may do in each: actionIsAllowedOnSpace, getSpacesAllowAction and
-- getNextSpace of common/helpers.ts, over the tables of common/constants.ts.
pub mod Actions
mod Tests
use wazuh_dashboard_security.Base.{
  ℕ, suc, ◌+◌, ◌-◌, String, Bool, List, [], ◌∷◌, ◌==◌, if◌then◌else◌, Option, none, some, Dict,
  lookup, includes, length, nat_eq, head?, drop,
}

-- AllowedActionsBySpace and FiltersAllowedActionsBySpace
abbrev pub allowed_actions_by_space : Dict (List String)
allowed_actions_by_space =
    (
      "draft",
      "create" ∷ "edit" ∷ "delete" ∷ "promote" ∷ "define_root_decoder" ∷ "rearrange_integrations"
          ∷ "edit_policy" ∷ "edit_policy_indexing_settings" ∷ "edit_enrichments" ∷ "clear_space"
          ∷ [],
    )
    ∷ ("test", "promote" ∷ [])
    ∷ ("custom", [])
    ∷ ("standard", "edit_enrichments" ∷ "edit_policy_indexing_settings" ∷ [])
    ∷ []

abbrev pub filters_allowed_actions_by_space : Dict (List String)
filters_allowed_actions_by_space =
    ("draft", "create" ∷ "edit" ∷ "delete" ∷ [])
    ∷ ("test", [])
    ∷ ("custom", [])
    ∷ ("standard", "create" ∷ "edit" ∷ "delete" ∷ [])
    ∷ []

-- The values of SpaceTypes, by key.
abbrev pub space_types : Dict String
space_types =
    ("DRAFT", "draft") ∷ ("TEST", "test") ∷ ("CUSTOM", "custom") ∷ ("STANDARD", "standard") ∷ []

abbrev pub user_spaces_order : List String
user_spaces_order = "draft" ∷ "test" ∷ "custom" ∷ []

-- The type Space of types/: four texts.
pub data Space : Type 0 where
  draft test custom standard : Space

abbrev pub text : Space → String
text draft = "draft"
text test = "test"
text custom = "custom"
text standard = "standard"

-- space.toUpperCase()
unfoldable pub upper_case : Space → String
upper_case draft = "DRAFT"
upper_case test = "TEST"
upper_case custom = "CUSTOM"
upper_case standard = "STANDARD"

-- The result is undefined where the space, or its list, is missing.
unfoldable pub action_is_allowed_on_space : Space → String → Dict (List String) → Option Bool
unfolding lookup includes upper_case
action_is_allowed_on_space space action table = elim (lookup (upper_case space) space_types) [
  | none ↦ none
  | some value ↦ elim (lookup value table) [
    | none ↦ none
    | some actions ↦ some (includes action actions)
  ]
]

unfoldable pub get_spaces_allow_action : String → Dict (List String) → List String
unfolding includes
get_spaces_allow_action action [] = []
get_spaces_allow_action action ((space, allowed) ∷ table) =
    let rest = get_spaces_allow_action action table in
    if includes action allowed then space ∷ rest else rest

-- Array.prototype.indexOf, where none stands for -1.
unfoldable pub index_of : String → List String → Option ℕ
index_of s [] = none
index_of s (t ∷ ts) =
    if s == t then some 0 else elim (index_of s ts) [ none ↦ none | some i ↦ some (suc i) ]

unfoldable pub get_next_space : String → Option String
unfolding index_of
get_next_space space = elim (index_of space user_spaces_order) [
  | none ↦ none
  | some i ↦
      if nat_eq i (length user_spaces_order - 1)
      then none
      else head? (drop (i + 1) user_spaces_order)
]
