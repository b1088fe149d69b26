-- ===== src/Base/Dicts.antt =====
-- A JavaScript object or Map with text keys: an association list in insertion order, where a
-- write to a present key keeps its place.
use Prim.Native.String.{String}
use mathlib.Core.Path.{◌≡◌, refl}
use mathlib.Core.Bool.{Bool, false, ◌||◌}
use mathlib.Core.Option.{Option, none, some}
use mathlib.Core.List.{List, [], ◌∷◌}
use native.Mathlib.Omega.{arith}
use text.Mathlib.Text.{◌==◌}
use text.Mathlib.TextEquality.{eq_iff}
use wazuh_dashboard_security.Base.Tests.{if◌then◌else◌}

abbrev pub Dict {ℓ} : Type ℓ → Type ℓ
Dict V = List (String × V)

-- Array.prototype.includes on texts.
unfoldable pub includes : String → List String → Bool
includes k [] = false
includes k (x ∷ xs) = k == x || includes k xs

module _ {ℓ} {Value : Type ℓ} where
  abbrev pub keys : Dict Value → List String
  keys [] = []
  keys ((key, value) ∷ entries) = key ∷ keys entries

  unfoldable pub lookup : (key : String) (entries : Dict Value) → Option Value
  lookup key ((here, value) ∷ entries) = if here == key then some value else lookup key entries
  lookup key [] = none

  abbrev pub values : Dict Value → List Value
  values [] = []
  values ((key, value) ∷ entries) = value ∷ values entries

  -- The value of a present key is replaced where it stands, a new key goes last.
  unfoldable pub insert : (key : String) (new : Value) (entries : Dict Value) → Dict Value
  insert key new ((here, old) ∷ entries) =
      if here == key then (here, new) ∷ entries else (here, old) ∷ insert key new entries
  insert key new [] = (key, new) ∷ []

  pub lookup-insert :
      (written asked : String) (new : Value) (entries : Dict Value)
      → lookup asked (insert written new entries)
        ≡ (if written == asked then some new else lookup asked entries)
  unfolding insert lookup
  lookup-insert written asked new ((here, old) ∷ entries) =
      let later = lookup-insert written asked new entries in
      ground (arith, later, eq_iff here asked, eq_iff here written, eq_iff written asked)
  lookup-insert written asked new [] = refl
