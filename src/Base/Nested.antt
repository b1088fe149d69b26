-- ===== src/Base/Nested.antt =====
-- Dictionaries of dictionaries: writes at two keys, the entries one by one, and their reads.
use mathlib.Core.Path.{◌≡◌, refl, ap, ◌∙◌, subst}
use mathlib.Core.Bool.{false, ◌&&◌, ◌||◌}
use mathlib.Core.Logic.{inl, inr}
use mathlib.Core.Option.{Option, none, some}
use mathlib.Core.List.{List, [], ◌∷◌, ◌++◌}
use Prim.Native.String.{String}
use native.Mathlib.Omega.{arith}
use text.Mathlib.Text.{◌==◌}
use text.Mathlib.TextEquality.{eq_iff}
use wazuh_dashboard_security.Base.Tests.{Bool-cases, if◌then◌else◌}
use wazuh_dashboard_security.Base.Dicts.{Dict, includes, keys, lookup, insert, lookup-insert}

abbrev pub Nested : Type 0 → Type 0
Nested Value = Dict (Dict Value)

-- A written value, with the two keys that it is written at.
abbrev pub Entry : Type 0 → Type 0
Entry Value = String × (String × Value)

module _ {Value : Type 0} where
  abbrev pub or_nil : Option (Dict Value) → Dict Value
  or_nil none = []
  or_nil (some d) = d

  unfoldable pub lookup2 : String → String → Nested Value → Option Value
  unfolding lookup
  lookup2 outer inner m = lookup inner (or_nil (lookup outer m))

  unfoldable pub put2 : String → String → Value → Nested Value → Nested Value
  unfolding insert lookup
  put2 outer inner v m = insert outer (insert inner v (or_nil (lookup outer m))) m

  unfoldable pub put_all : List (Entry Value) → Nested Value → Nested Value
  unfolding put2
  put_all [] m = m
  put_all ((outer, (inner, v)) ∷ es) m = put_all es (put2 outer inner v m)

  -- The last entry at the two keys, or else what was there.
  unfoldable pub last_entry : String → String → List (Entry Value) → Option Value → Option Value
  last_entry outer inner [] before = before
  last_entry outer inner ((o, (i, v)) ∷ es) before =
      last_entry outer inner es (if o == outer && i == inner then some v else before)

  lookup2-put2 :
      (o i : String) (v : Value) (outer inner : String) (m : Nested Value)
      → lookup2 outer inner (put2 o i v m)
        ≡ (if o == outer && i == inner then some v else lookup2 outer inner m)
  unfolding lookup2 put2
  lookup2-put2 o i v outer inner m =
      let written = lookup-insert o outer (insert i v (or_nil (lookup o m))) m in
      let inside = lookup-insert i inner v (or_nil (lookup o m)) in
      grind (arith, written, inside, eq_iff o outer)

  pub lookup2-put_all :
      (outer inner : String) (es : List (Entry Value)) (m : Nested Value)
      → lookup2 outer inner (put_all es m) ≡ last_entry outer inner es (lookup2 outer inner m)
  unfolding put_all last_entry
  lookup2-put_all outer inner [] m = refl
  lookup2-put_all outer inner ((o, (i, v)) ∷ es) m =
      lookup2-put_all outer inner es (put2 o i v m)
      ∙ ap (last_entry outer inner es) (lookup2-put2 o i v outer inner m)

-- No key occurs twice.
abbrev pub IsObject {ℓ} : {A : Type ℓ} → Dict A → Type 0
IsObject [] = Unit
IsObject ((k, v) ∷ d) = (includes k (keys d) ≡ false) × IsObject d

abbrev pub AreObjects : {A : Type 0} → Nested A → Type 0
AreObjects [] = Unit
AreObjects ((k, d) ∷ m) = IsObject d × AreObjects m

module _ {ℓ} {A : Type ℓ} where
  includes-keys-insert :
      (x k : String) (v : A) (d : Dict A)
      → includes x (keys (insert k v d)) ≡ includes x (keys d) || x == k
  unfolding includes insert
  includes-keys-insert x k v [] = ground arith
  includes-keys-insert x k v ((j, w) ∷ d) =
      ground (arith, includes-keys-insert x k v d, eq_iff j k, eq_iff x j, eq_iff x k)

  insert-IsObject : (k : String) (v : A) (d : Dict A) → IsObject d → IsObject (insert k v d)
  unfolding insert includes
  insert-IsObject k v [] h = (refl, tt)
  insert-IsObject k v ((j, w) ∷ d) h = elim (Bool-cases (j == k)) [
    | inl same ↦ rw same h
    | inr other ↦
        rw other
          (ground (arith, includes-keys-insert j k v d, h.0, other), insert-IsObject k v d h.1)
  ]

lookup_absent :
    {A : Type 0} (k : String) (d : Dict A) → includes k (keys d) ≡ false → lookup k d ≡ none
unfolding lookup includes
lookup_absent k [] h = refl
lookup_absent k ((j, v) ∷ d) h = ground (arith, lookup_absent k d, h, eq_iff j k, eq_iff k j)

module _ {Value : Type 0} where
  lookup-AreObjects :
      (k : String) (m : Nested Value) → AreObjects m → IsObject (or_nil (lookup k m))
  unfolding lookup
  lookup-AreObjects k [] h = tt
  lookup-AreObjects k ((j, d) ∷ m) h = elim (Bool-cases (j == k)) [
    | inl same ↦ rw same h.0
    | inr other ↦ rw other (lookup-AreObjects k m h.1)
  ]

  insert-AreObjects :
      (k : String) (d : Dict Value) (m : Nested Value)
      → IsObject d
      → AreObjects m
      → AreObjects (insert k d m)
  unfolding insert
  insert-AreObjects k d [] h rest = (h, tt)
  insert-AreObjects k d ((j, e) ∷ m) h rest = elim (Bool-cases (j == k)) [
    | inl same ↦ rw same (h, rest.1)
    | inr other ↦ rw other (rest.0, insert-AreObjects k d m h rest.1)
  ]

  pub put_all-append :
      (es fs : List (Entry Value)) (m : Nested Value)
      → put_all (es ++ fs) m ≡ put_all fs (put_all es m)
  unfolding put_all
  put_all-append [] fs m = refl
  put_all-append ((o, (i, v)) ∷ es) fs m = put_all-append es fs (put2 o i v m)

  -- Both levels are objects.
  abbrev pub AreNestedObjects : Nested Value → Type 0
  AreNestedObjects m = IsObject m × AreObjects m

  pub put_all-AreNestedObjects :
      (es : List (Entry Value)) (m : Nested Value)
      → AreNestedObjects m
      → AreNestedObjects (put_all es m)
  unfolding put_all put2
  put_all-AreNestedObjects [] m h = h
  put_all-AreNestedObjects ((o, (i, v)) ∷ es) m h =
      let row = insert i v (or_nil (lookup o m)) in
      put_all-AreNestedObjects es (put2 o i v m) (
        insert-IsObject o row m h.0,
        insert-AreObjects o row m
            (insert-IsObject i v (or_nil (lookup o m)) (lookup-AreObjects o m h.1)) h.1,
      )

  abbrev pub row_entries : String → Dict Value → List (Entry Value)
  row_entries outer [] = []
  row_entries outer ((i, v) ∷ d) = (outer, (i, v)) ∷ row_entries outer d

  abbrev pub entries_of : Nested Value → List (Entry Value)
  entries_of [] = []
  entries_of ((o, d) ∷ m) = row_entries o d ++ entries_of m

  last_entry-append :
      (outer inner : String) (es fs : List (Entry Value)) (before : Option Value)
      → last_entry outer inner (es ++ fs) before
        ≡ last_entry outer inner fs (last_entry outer inner es before)
  unfolding last_entry
  last_entry-append outer inner [] fs before = refl
  last_entry-append outer inner ((o, (i, v)) ∷ es) fs before =
      last_entry-append outer inner es fs (if o == outer && i == inner then some v else before)

  -- The value of the key, or else another one.
  abbrev pub found_or : Option Value → Option Value → Option Value
  found_or none before = before
  found_or (some v) before = some v

  last_entry-row_entries :
      (outer inner o : String) (d : Dict Value) (before : Option Value)
      → IsObject d
      → last_entry outer inner (row_entries o d) before
        ≡ (if o == outer then found_or (lookup inner d) before else before)
  unfolding last_entry lookup includes
  last_entry-row_entries outer inner o [] before h = ground arith
  last_entry-row_entries outer inner o ((i, v) ∷ d) before h =
      let start = if o == outer && i == inner then some v else before in
      grind (
        arith,
        last_entry-row_entries outer inner o d start h.1,
        lookup_absent inner d,
        h.0,
        eq_iff i inner,
      )

  pub last_entry-entries_of :
      (outer inner : String) (m : Nested Value) (before : Option Value)
      → AreNestedObjects m
      → last_entry outer inner (entries_of m) before ≡ found_or (lookup2 outer inner m) before
  unfolding last_entry lookup2 lookup includes
  last_entry-entries_of outer inner [] before h = refl
  last_entry-entries_of outer inner ((o, d) ∷ m) before h =
      let row = last_entry-row_entries outer inner o d before h.1.0 in
      let rest =
        last_entry-entries_of outer inner m (last_entry outer inner (row_entries o d) before)
          (h.0.1, h.1.1) in
      last_entry-append outer inner (row_entries o d) (entries_of m) before
      ∙ rest
      ∙ by_key (lookup outer m) (lookup_absent outer m) row
    where
      by_key :
          (found : Option (Dict Value))
          → (includes outer (keys m) ≡ false → found ≡ none)
          → last_entry outer inner (row_entries o d) before
            ≡ (if o == outer then found_or (lookup inner d) before else before)
          → found_or (lookup inner (or_nil found)) (last_entry outer inner (row_entries o d) before)
            ≡ found_or (lookup inner (or_nil (if o == outer then some d else found))) before
      by_key found absent row = elim (Bool-cases (o == outer)) [
        | inl same ↦
            let missing : found ≡ none =
              absent (subst (λ x. includes x (keys m) ≡ false) ((eq_iff o outer).0 same) h.0.0) in
            rw (missing, row, same) refl
        | inr other ↦ rw (row, other) refl
      ]
