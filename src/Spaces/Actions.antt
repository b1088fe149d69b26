-- ===== src/Spaces/Actions.antt =====
-- The two ways to ask what is allowed where, and promotion.
use wazuh_dashboard_security.Base.{
  String, Bool, true, false, List, [], ◌∷◌, ◌≡◌, ◌↔◌, refl, Option, none, some, Dict, lookup,
  includes, keys, arith, eq_iff,
}
use wazuh_dashboard_security.Spaces.{
  Space, draft, test, custom, standard, text, upper_case, space_types, allowed_actions_by_space,
  action_is_allowed_on_space, get_spaces_allow_action, get_next_space, index_of,
}

-- An object's keys are distinct.
abbrev pub IsTable : Dict (List String) → Type 0
IsTable [] = Unit
IsTable ((space, actions) ∷ table) = (includes space (keys table) ≡ false) × IsTable table

listed-key :
    (k action : String) (table : Dict (List String))
    → includes k (keys table) ≡ false
    → includes k (get_spaces_allow_action action table) ≡ false
unfolding includes get_spaces_allow_action
listed-key k action [] e = refl
listed-key k action ((space, allowed) ∷ table) e = ground (arith, listed-key k action table)

listed : String → String → Dict (List String) → Bool
listed space action table = elim (lookup space table) [
  | none ↦ false
  | some actions ↦ includes action actions
]

includes-get_spaces :
    (k action : String) (table : Dict (List String))
    → IsTable table
    → includes k (get_spaces_allow_action action table) ≡ listed k action table
unfolding includes get_spaces_allow_action listed lookup
includes-get_spaces k action [] h = refl
includes-get_spaces k action ((space, allowed) ∷ table) (fresh, h) = ground (
  arith,
  includes-get_spaces k action table h,
  listed-key space action table fresh,
  eq_iff space k,
  eq_iff k space,
)

value_of : (space : Space) → lookup (upper_case space) space_types ≡ some (text space)
unfolding lookup upper_case
value_of draft = refl
value_of test = refl
value_of custom = refl
value_of standard = refl

-- A space is among those that getSpacesAllowAction lists for an action exactly if
-- actionIsAllowedOnSpace allows the action on it, for every action and every table.
pub get_spaces_allow_action-lists :
    (space : Space) (action : String) (table : Dict (List String))
    → IsTable table
    → (includes (text space) (get_spaces_allow_action action table) ≡ true)
      ↔ (action_is_allowed_on_space space action table ≡ some true)
unfolding action_is_allowed_on_space listed
get_spaces_allow_action-lists space action table h =
    ground (arith, includes-get_spaces (text space) action table h, value_of space)

abbrev pub is_some : Option String → Bool
is_some none = false
is_some (some s) = true

-- A user may promote from a space exactly if there is a next space to promote to.
pub promote-next_space :
    (space : Space)
    → action_is_allowed_on_space space "promote" allowed_actions_by_space
      ≡ some (is_some (get_next_space (text space)))
unfolding action_is_allowed_on_space get_next_space index_of lookup includes upper_case
promote-next_space draft = refl
promote-next_space test = refl
promote-next_space custom = refl
promote-next_space standard = refl
