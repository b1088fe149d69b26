-- ===== src/Json/Members.antt =====
-- What a method call finds at an object: `o.m(x)` reads the member m, and throws where that is no
-- function.
use wazuh_dashboard_security.Base.{String, List, Option, none, some, lookup}
use wazuh_dashboard_security.Json.{Json}

pub data Member : Type 0 where
  data_member : Member
  method : (Json → Json) → Member

abbrev pub Members : Type 0
Members = List (String × Member)

-- The function to call, if the member is one.
unfoldable pub method_of : String → Members → Option (Json → Json)
unfolding lookup
method_of name members = elim (lookup name members) [
  | none ↦ none
  | some data_member ↦ none
  | some (method f) ↦ some f
]
