-- ===== src/Server/LogTest/Errors.antt =====
-- The error texts of a log test.
use Prim.Native.Char.{code}
use wazuh_dashboard_security.Base.{
  String, Bool, true, false, List, [], ◌∷◌, ◌≡◌, ◌≢◌, ◌⊎◌, refl, if◌then◌else◌, Option, none, some,
  arith, ◌==◌, ◌&&◌, eq_iff, inl, inr, Bool-cases,
}
use wazuh_dashboard_security.Json.{Json, str, arr, elems, opt}
use wazuh_dashboard_security.Json.Text.{trim, trim_start, trim_end, is_space}
use wazuh_dashboard_security.Server.LogTest.{
  text_of, first_reason, root_reason, nested_text, body_text, ◌otherwise◌,
  format_log_test_service_error, unexpected,
}

trim_end_idem : (s : String) → trim_end (trim_end s) ≡ trim_end s
unfolding trim_end
trim_end_idem String.[] = refl
trim_end_idem (String.◌∷◌ c s) = go (is_space (code c) && trim_end s == "") refl (trim_end_idem s)
  where
    go :
        (b : Bool)
        → (is_space (code c) && trim_end s == "") ≡ b
        → trim_end (trim_end s) ≡ trim_end s
        → trim_end (if b then "" else String.◌∷◌ c (trim_end s))
          ≡ (if b then "" else String.◌∷◌ c (trim_end s))
    go true e ih = refl
    go false e ih = rw ih (rw e refl)

trim_start-trim : (s : String) → trim_start (trim s) ≡ trim s
unfolding trim trim_start trim_end
trim_start-trim String.[] = refl
trim_start-trim (String.◌∷◌ c s) = ground (arith, trim_start-trim s)

-- Nothing is left to trim.
trim_idem : (s : String) → trim (trim s) ≡ trim s
unfolding trim
trim_idem s = rw (trim_start-trim s, trim) (trim_end_idem (trim_start s))

-- A text with something in it, and no space around it.
abbrev pub IsLegible : String → Type 0
IsLegible s = (trim s ≡ s) × (s ≢ "")

abbrev OnSome : Option String → Type 0
OnSome none = Unit
OnSome (some s) = IsLegible s

text_of-OnSome : (v : Json) → OnSome (text_of v)
unfolding text_of
text_of-OnSome (str s) = legible s (Bool-cases (trim s == ""))
  where
    legible :
        (s : String)
        → ((trim s == "") ≡ true) ⊎ ((trim s == "") ≡ false)
        → OnSome (if trim s == "" then none else some (trim s))
    legible s (inl blank) = rw blank tt
    legible s (inr b) = rw b (trim_idem s, λ e. ground (arith, eq_iff (trim s) ""))
text_of-OnSome _ = tt

otherwise-OnSome : (o p : Option String) → OnSome o → OnSome p → OnSome (o otherwise p)
otherwise-OnSome (some s) p h k = h
otherwise-OnSome none p h k = k

first_reason-OnSome : (causes : List Json) → OnSome (first_reason causes)
unfolding first_reason
first_reason-OnSome [] = tt
first_reason-OnSome (c ∷ causes) =
    go (text_of (opt c "reason")) (text_of-OnSome (opt c "reason")) (first_reason-OnSome causes)
  where
    go :
        (o : Option String)
        → OnSome o
        → OnSome (first_reason causes)
        → OnSome (elim o [ some reason ↦ some reason | none ↦ first_reason causes ])
    go (some s) h rest = h
    go none h rest = rest

root_reason-OnSome : (v : Json) → OnSome (root_reason v)
unfolding root_reason
root_reason-OnSome (arr causes) = first_reason-OnSome (elems causes)
root_reason-OnSome _ = tt

body_text-OnSome : (body : Json) → OnSome (body_text body)
unfolding body_text nested_text
body_text-OnSome body = search (otherwise-OnSome, text_of-OnSome, root_reason-OnSome) depth 8

unexpected-IsLegible : IsLegible unexpected
unfolding trim trim_start trim_end is_space
unexpected-IsLegible = (refl, λ e. ground (arith, eq_iff unexpected ""))

-- The text of a failed log test is never empty and has no space around it, whatever was thrown.
pub format_log_test_service_error-IsLegible :
    (error : Json) → IsLegible (format_log_test_service_error error)
unfolding format_log_test_service_error
format_log_test_service_error-IsLegible error =
    legible (body_text (opt error "body") otherwise text_of (opt error "message"))
      (search (otherwise-OnSome, body_text-OnSome, text_of-OnSome))
  where
    legible : (o : Option String) → OnSome o → IsLegible (elim o [ some s ↦ s | none ↦ unexpected ])
    legible (some s) h = h
    legible none h = unexpected-IsLegible
