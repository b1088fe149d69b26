-- ===== src/Rules/LogSource.antt =====
-- The log source of a rule, and getLogTypeFromLogSource of public/pages/Rules/utils/helpers.tsx and
-- public/pages/WazuhRules/utils/helpers.tsx. The known log types are those of the module variable
-- ruleTypes, which the log type store fills.
use wazuh_dashboard_security.Base.{
  String, Bool, false, not, List, [], ◌∷◌, ◌==◌, ◌&&◌, if◌then◌else◌, Option, none, some, includes,
}

pub record LogSource : Type 0 where
  pub product : Option String
  pub category : Option String
  pub service : Option String

-- Boolean(s), of a text that may be missing.
abbrev pub has_text : Option String → Bool
has_text none = false
has_text (some s) = not (s == "")

-- s || fallback
abbrev pub text_or : Option String → String → String
text_or none fallback = fallback
text_or (some s) fallback = if s == "" then fallback else s

-- logType && logTypes.has(logType)
abbrev pub is_known : List String → Option String → Bool
is_known known none = false
is_known known (some s) = not (s == "") && includes s known

-- The loop keeps the last value that it read.
unfoldable pub first_known : List String → Option String → List (Option String) → Option String
unfolding includes
first_known known last [] = last
first_known known last (t ∷ ts) = if is_known known t then t else first_known known t ts

unfoldable pub get_log_type_from_log_source : List String → LogSource → Option String
unfolding first_known
get_log_type_from_log_source known source =
    first_known known none (source.product ∷ source.category ∷ source.service ∷ [])
