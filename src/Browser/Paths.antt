-- ===== src/Browser/Paths.antt =====
-- The urls of the requests as paths. Reading a url is the platform's: a parameter, with what the
-- url standard says of it.
use Prim.Native.Char.{code}
use wazuh_dashboard_security.Base.{
  String, Bool, true, not, List, [], ◌∷◌, ◌≡◌, ◌==◌, ◌&&◌, ◌||◌, nat_eq, all,
}
use wazuh_dashboard_security.Json.Text.{◌&◌, is_word}

-- Letters, digits, `_`, `-` and `.`, of which ids and names of indices are made.
unfoldable pub are_plain : String → Bool
unfolding is_word
are_plain String.[] = true
are_plain (String.◌∷◌ c s) =
    (is_word (code c) || nat_eq (code c) 45 || nat_eq (code c) 46) && are_plain s

unfoldable pub is_segment : String → Bool
unfolding are_plain
is_segment s = are_plain s && not (s == "") && not (s == ".") && not (s == "..")

abbrev pub IsSegment : String → Type 0
IsSegment s = is_segment s ≡ true

-- A path: segments, and at least one.
abbrev pub AreSegments : List String → Type 0
AreSegments [] = ⊥
AreSegments (s ∷ ss) = all is_segment (s ∷ ss) ≡ true

unfoldable pub path_text : List String → String
path_text [] = ""
path_text (s ∷ ss) = "/" & s & path_text ss

-- The segments of the path that a url leads to, from a page below /app: a url that starts with `..`
-- is relative to it, and a query is no part of the path.
pub record IsResolver (resolve : String → List String) : Type 0 where
  pub relative :
      (segments : List String)
      → AreSegments segments
      → resolve (".." & path_text segments) ≡ segments
  pub absolute :
      (segments : List String) → AreSegments segments → resolve (path_text segments) ≡ segments
  pub queried :
      (segments : List String) (query : String)
      → AreSegments segments
      → resolve (".." & path_text segments & ("?" & query)) ≡ segments
