-- ===== src/Stores/Findings/Pages.antt =====
-- Which findings the pages of a detector cover.
use mathlib.Core.List.{map-append}
use wazuh_dashboard_security.Base.{
  ℕ, zero, suc, ◌+◌, ◌-◌, ◌≤◌, Bool, false, List, [], ◌∷◌, ◌++◌, map, some, ◌≡◌, refl, sym, ap, ◌∙◌,
  ltb, arith, length, take, drop, take-append-drop, drop-drop, drop-all, Bool-cases, inl, inr,
}
use wazuh_dashboard_security.Json.{Json}
use wazuh_dashboard_security.Stores.Findings.{
  Answer, page, findings_size, extend_finding, request_pages, settle, further_pages,
  get_findings_per_detector, resolved,
}

module _ (all : List Json) where
  -- A service that answers with the slice from the start index, counted from 0.
  abbrev pub slices : ℕ → Answer
  slices start = page (take findings_size (drop start all)) (length all)

  settle-request_pages :
      (aborted : ℕ → Bool) (fuel reads remaining start : ℕ)
      → ((n : ℕ) → aborted n ≡ false)
      → remaining ≡ suc (length all) - start
      → remaining ≤ fuel
      → (starts : List ℕ) × (request_pages aborted fuel reads remaining start ≡ some starts)
        × (settle slices starts ≡ drop start all)
  unfolding request_pages settle
  settle-request_pages aborted zero reads remaining start never e h =
      ([], refl, sym (drop-all start all (omega arith)))
  settle-request_pages aborted (suc fuel) reads remaining start never e h =
      elim (Bool-cases (ltb 0 remaining)) [
        | inl more ↦
            let (starts, found, rest) =
              settle-request_pages aborted fuel (reads + 2) (remaining - findings_size)
                (start + findings_size) never (omega arith) (ground arith) in
            (
              start ∷ starts,
              rw (more, never reads, never (reads + 1), found),
              ap (λ l. take findings_size (drop start all) ++ l)
                    (rest ∙ sym (drop-drop findings_size start all))
                  ∙ take-append-drop findings_size (drop start all),
            )
        | inr done ↦ ([], rw done, sym (drop-all start all (ground arith)))
      ]

module _ (all : List Json) (aborted : ℕ → Bool) (detector : Json)
    (never : (n : ℕ) → aborted n ≡ false) where
  further_pages-skips :
      further_pages (slices all) aborted detector (take findings_size all) (length all)
      ≡ resolved
          (map (extend_finding detector) (take findings_size all ++ drop (findings_size + 1) all))
  unfolding further_pages
  further_pages-skips =
      let start = findings_size + 1 in
      let remaining = length all - findings_size in
      let (starts, found, rest) =
        settle-request_pages all aborted remaining 2 remaining start never (omega arith)
          (omega arith) in
      rw (found, further_pages) (rw rest (ap resolved (sym (map-append _ _ _))))

-- Where the service counts its findings from 0 and nothing aborts, the findings that come back are
-- all but the one at index 10000: the second page is asked for from 10001 on.
pub get_findings_per_detector-skips :
    (all : List Json) (aborted : ℕ → Bool) (detector : Json)
    → ((n : ℕ) → aborted n ≡ false)
    → get_findings_per_detector (slices all) aborted detector
      ≡ resolved
          (map (extend_finding detector) (take findings_size all ++ drop (findings_size + 1) all))
unfolding get_findings_per_detector
get_findings_per_detector-skips all aborted detector never =
    rw (never 0, never 1) (further_pages-skips all aborted detector never)
