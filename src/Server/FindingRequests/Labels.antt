-- ===== src/Server/FindingRequests/Labels.antt =====
-- How getFindings of server/services/FindingsService.ts labels a finding.
use wazuh_dashboard_security.Base.{
  String, Bool, true, false, List, [], ◌∷◌, ◌≡◌, refl, ap, ◌∙◌, arith, All, all, any, eq_iff,
  Bool-cases, inl, inr, ◌==◌, ◌&&◌, if◌then◌else◌,
}
use wazuh_dashboard_security.Json.{
  Json, str, obj, Fields, end, field, array, opt, get_field, set_field, elems-items,
}
use wazuh_dashboard_security.Json.Text.{is_prefix}
use wazuh_dashboard_security.Server.Client.{Host, Session, return, pure, ◌>>=◌, get, each}
use wazuh_dashboard_security.Server.FindingRequests.{
  detection_type, label, is_threat_intel, every_threat_intel, some_threat_intel, labelled,
}

-- A query, with its id and its properties, the id among them wherever it stands.
abbrev pub query : String × Fields → Json
query (id, properties) = obj properties

abbrev pub HasId : String × Fields → Type 0
HasId (id, properties) = get_field "id" properties ≡ str id

abbrev pub queries : List (String × Fields) → List Json
queries [] = []
queries (q ∷ qs) = query q ∷ queries qs

abbrev pub intel : String × Fields → Bool
intel (id, rest) = is_prefix "threat_intel_" id

module _ (host : Host) where
  every-all :
      (qs : List (String × Fields)) (s : Session)
      → All HasId qs
      → every_threat_intel host (queries qs) s ≡ (return (all intel qs), s)
  unfolding every_threat_intel is_threat_intel ◌>>=◌ pure get opt get_field
  every-all [] s h = refl
  every-all ((id, rest) ∷ qs) s (e, h) = elim (Bool-cases (is_prefix "threat_intel_" id)) [
    | inl yes_intel ↦ rw (e, yes_intel) (every-all qs s h)
    | inr no_intel ↦ rw (e, no_intel) refl
  ]

  some-any :
      (qs : List (String × Fields)) (s : Session)
      → All HasId qs
      → some_threat_intel host (queries qs) s ≡ (return (any intel qs), s)
  unfolding some_threat_intel is_threat_intel ◌>>=◌ pure get opt get_field
  some-any [] s h = refl
  some-any ((id, rest) ∷ qs) s (e, h) = elim (Bool-cases (is_prefix "threat_intel_" id)) [
    | inl yes_intel ↦ rw (e, yes_intel) refl
    | inr no_intel ↦ rw (e, no_intel) (some-any qs s h)
  ]

  labelled-label :
      (fs : Fields) (qs : List (String × Fields)) (s : Session)
      → All HasId qs
      → get_field "queries" fs ≡ array (queries qs)
      → labelled host (obj fs) s ≡ (return (label (all intel qs) (any intel qs) (obj fs)), s)
  unfolding labelled ◌>>=◌ pure get opt each
  labelled-label fs qs s h e =
      rw (e, elems-items (queries qs), every-all qs s h, some-any qs s h) refl

pub get_field-set_field :
    (j k : String) (v : Json) (fs : Fields)
    → get_field k (set_field j v fs) ≡ (if j == k then v else get_field k fs)
unfolding get_field set_field
get_field-set_field j k v end = refl
get_field-set_field j k v (field i w fs) =
    grind (arith, get_field-set_field j k v fs, eq_iff i j, eq_iff i k, eq_iff j k)

-- What threat intelligence and rules found, by the queries of a finding.
abbrev pub found_by : List (String × Fields) → String
found_by qs =
    if all intel qs
    then (if any intel qs then "Threat intelligence" else "")
    else (if any intel qs then "Rules, Threat intelligence" else "Rules")

-- What stands in a labelled finding under a key.
abbrev pub labelled_field : List (String × Fields) → Fields → String → Json
labelled_field qs fs k =
    if "detectionType" == k
    then str (found_by qs)
    else (if any intel qs && "ruleSeverity" == k then str "high" else get_field k fs)

detection_type-found_by :
    (qs : List (String × Fields)) → detection_type (all intel qs) (any intel qs) ≡ found_by qs
detection_type-found_by qs = by_cases (all intel qs) (any intel qs)
  where
    by_cases :
        (all some : Bool)
        → detection_type all some ≡ (
            if all
            then (if some then "Threat intelligence" else "")
            else (if some then "Rules, Threat intelligence" else "Rules"))
    by_cases true true = refl
    by_cases true false = refl
    by_cases false true = refl
    by_cases false false = refl

opt-label :
    (all some : Bool) (fs : Fields) (k : String)
    → opt (label all some (obj fs)) k ≡ (
        if "detectionType" == k
        then str (detection_type all some)
        else (if some && "ruleSeverity" == k then str "high" else get_field k fs))
unfolding opt label
opt-label all true fs k =
    get_field-set_field "detectionType" k _ (set_field "ruleSeverity" (str "high") fs)
    ∙ ap (λ v. if "detectionType" == k then str (detection_type all true) else v)
        (get_field-set_field "ruleSeverity" k (str "high") fs)
opt-label all false fs k = get_field-set_field "detectionType" k _ fs

module _ (host : Host) where
  -- A finding whose queries are objects with ids that are texts is labelled, with no request: its
  -- detection type names rules where a query is none of threat intelligence, and threat
  -- intelligence where one is; its severity is high where one is; and every other property is as
  -- it was.
  pub labelled-types :
      (fs : Fields) (qs : List (String × Fields)) (s : Session) (k : String)
      → All HasId qs
      → get_field "queries" fs ≡ array (queries qs)
      → (v : Json) × (labelled host (obj fs) s ≡ (return v, s)) × (opt v k ≡ labelled_field qs fs k)
  labelled-types fs qs s k h e = (
    label (all intel qs) (any intel qs) (obj fs),
    labelled-label host fs qs s h e,
    opt-label (all intel qs) (any intel qs) fs k
        ∙ ap
            (λ t.
              if "detectionType" == k
              then str t
              else (if any intel qs && "ruleSeverity" == k then str "high" else get_field k fs))
            (detection_type-found_by qs),
  )
