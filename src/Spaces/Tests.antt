-- ===== src/Spaces/Tests.antt =====
-- The tables of the spaces, asked both ways.
use wazuh_dashboard_security.Base.{true, [], ◌∷◌, ◌≡◌, ◌↔◌, refl, some, none, includes}
use wazuh_dashboard_security.Spaces.{
  test, standard, text, allowed_actions_by_space, filters_allowed_actions_by_space,
  action_is_allowed_on_space, get_spaces_allow_action, get_next_space, index_of,
}
use wazuh_dashboard_security.Spaces.Actions.{
  IsTable, is_some, get_spaces_allow_action-lists, promote-next_space,
}

filters_created_in :
    get_spaces_allow_action "create" filters_allowed_actions_by_space ≡ "draft" ∷ "standard" ∷ []
unfolding get_spaces_allow_action includes
filters_created_in = refl

next_spaces : get_next_space "draft" ≡ some "test"
unfolding get_next_space index_of
next_spaces = refl

no_next_space : get_next_space "standard" ≡ none
unfolding get_next_space index_of
no_next_space = refl

filters-IsTable : IsTable filters_allowed_actions_by_space
unfolding includes
filters-IsTable = (refl, (refl, (refl, (refl, tt))))

get_spaces_allow_action-lists_example :
    (includes (text standard) (get_spaces_allow_action "create" filters_allowed_actions_by_space)
      ≡ true)
    ↔ (action_is_allowed_on_space standard "create" filters_allowed_actions_by_space ≡ some true)
get_spaces_allow_action-lists_example =
    get_spaces_allow_action-lists standard "create" filters_allowed_actions_by_space filters-IsTable

promote-next_space_example :
    action_is_allowed_on_space test "promote" allowed_actions_by_space
    ≡ some (is_some (get_next_space (text test)))
promote-next_space_example = promote-next_space test
