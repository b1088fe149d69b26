-- ===== src/Stores/Findings.antt =====
-- public/store/FindingsStore.ts: the findings of a detector, page by page. The service is a
-- parameter: what it answers from a start index (the other parameters of the requests are equal).
-- `aborted n` is what the n-th read of `signal.aborted` gives.
pub mod Pages
use wazuh_dashboard_security.Base.{
  ℕ, zero, suc, ◌+◌, ◌-◌, Bool, List, [], ◌∷◌, ◌++◌, map, Option, none, some, if◌then◌else◌, ltb,
}
use wazuh_dashboard_security.Json.{Json, obj, array, path, set_field, spread}

-- The answer to getFindings: findings and their total, `ok: false`, or a rejected promise.
pub data Answer : Type 0 where
  page : List Json → ℕ → Answer
  refused : Answer
  rejected : Answer

-- The promise of the method: its value, or its rejection.
pub data Fetched : Type 0 where
  resolved : List Json → Fetched
  failed : Fetched

abbrev pub findings_size : ℕ
findings_size = 10000

-- { ...finding, detectorName, logType, detector, correlations: [] }
unfoldable pub extend_finding : Json → Json → Json
unfolding set_field path
extend_finding detector finding = obj (
    set_field "correlations" (array []) (
      set_field "detector" detector (
        set_field "logType" (path detector ("_source" ∷ "detector_type" ∷ []))
          (set_field "detectorName" (path detector ("_source" ∷ "name" ∷ [])) (spread finding)))))

-- The loop that requests the further pages: their start indices, or none if it was aborted. With
-- no abort a round leaves `remaining` smaller, so that `remaining` rounds are enough.
unfoldable pub request_pages :
    (aborted : ℕ → Bool) (fuel reads remaining start : ℕ) → Option (List ℕ)
request_pages aborted zero reads remaining start = some []
request_pages aborted (suc fuel) reads remaining start =
    let rest =
      request_pages aborted fuel (reads + 2) (remaining - findings_size) (start + findings_size) in
    let pushed : Option (List ℕ) = elim rest [
      | none ↦ none
      | some starts ↦ some (start ∷ starts)
    ] in
    if ltb 0 remaining
    then (if aborted reads then none else (if aborted (reads + 1) then none else pushed))
    else some []

-- Promise.allSettled, and the findings of the promises that were fulfilled with `ok`.
unfoldable pub settle : (ℕ → Answer) → List ℕ → List Json
settle service [] = []
settle service (start ∷ starts) = elim (service start) [
  | page findings total ↦ findings ++ settle service starts
  | _ ↦ settle service starts
]

-- What follows the first page.
unfoldable pub further_pages : (ℕ → Answer) → (ℕ → Bool) → Json → List Json → ℕ → Fetched
unfolding request_pages settle
further_pages service aborted detector findings total =
    let first = map (extend_finding detector) findings in
    elim (request_pages aborted (total - findings_size) 2 (total - findings_size)
      (findings_size + 1)) [
        | none ↦ resolved first
        | some starts ↦ resolved (first ++ map (extend_finding detector) (settle service starts))
      ]

unfoldable pub get_findings_per_detector : (ℕ → Answer) → (ℕ → Bool) → Json → Fetched
unfolding further_pages
get_findings_per_detector service aborted detector =
    if aborted 0 then resolved [] else (elim (service 0) [
      | rejected ↦ failed
      | refused ↦ resolved []
      | page findings total ↦
          if aborted 1 then resolved [] else further_pages service aborted detector findings total
    ])

-- getAllFindings, given the detectors that were found: the findings are extended once more.
unfoldable pub get_all_findings : (Json → ℕ → Answer) → (ℕ → Bool) → List Json → Fetched
unfolding get_findings_per_detector
get_all_findings service aborted [] = resolved []
get_all_findings service aborted (detector ∷ detectors) =
    let rest = get_all_findings service aborted detectors in
    elim (get_findings_per_detector (service detector) aborted detector) [
      | failed ↦ failed
      | resolved findings ↦ elim rest [
        | failed ↦ failed
        | resolved later ↦ resolved (map (extend_finding detector) findings ++ later)
      ]
    ]
