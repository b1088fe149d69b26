-- ===== src/Stores/Alerts/Pages.antt =====
-- The loop over the pages of alerts, of public/store/AlertsStore.ts.
use Prim.Native.Nat.{min}
use mathlib.Core.List.{map-append, append_assoc}
use wazuh_dashboard_security.Base.{
  ℕ, zero, suc, ◌+◌, ◌-◌, ◌≤◌, ◌<◌, String, Bool, false, List, [], ◌++◌, map, Option, none, some,
  ◌≡◌, ◌≢◌, sym, ap, ◌∙◌, nat_eq, nat_eq_iff, arith, length, take, drop, take-append-drop,
  Bool-cases, inl, inr, length-take, take-all, length-drop, drop-drop,
}
use wazuh_dashboard_security.Json.{Json}
use wazuh_dashboard_security.Stores.Alerts.{
  Answer, alerts, resolved, extend_alert, fetch_alerts, get_alerts_by_detector, default_alert_count,
}

module _ (all : List Json) where
  -- A service that answers with at most the number asked for, from the start index.
  abbrev pub slices : ℕ → ℕ → Answer
  slices most start = alerts (take most (drop start all))

  -- A page and what follows it.
  next_page :
      (extend : Json → Json) (most start : ℕ) (found : List Json)
      → (found ++ map extend (take most (drop start all))) ++ map extend (drop (start + most) all)
        ≡ found ++ map extend (drop start all)
  next_page extend most start found =
      append_assoc found _ _
      ∙ ap (λ l. found ++ l)
          (sym (map-append _ _ _)
            ∙ ap (map extend) (
                ap (λ l. take most (drop start all) ++ l) (sym (drop-drop most start all))
                ∙ take-append-drop most (drop start all)))

  length-page :
      (most start : ℕ) → length (take most (drop start all)) ≡ min most (length all - start)
  length-page most start = length-take most (drop start all) ∙ ap (min most) (length-drop start all)

  module _ (aborted : ℕ → Bool) (extend : Json → Json) (never : (n : ℕ) → aborted n ≡ false)
      (most : ℕ) (pos : 0 < most) where
    fetch_alerts_complete :
        (fuel reads start : ℕ) (found : List Json)
        → start ≤ length all
        → length all < fuel + start
        → fetch_alerts (slices most) aborted extend most fuel reads start found
          ≡ resolved (found ++ map extend (drop start all))
    unfolding fetch_alerts
    fetch_alerts_complete zero reads start found low h = absurd (omega arith)
    fetch_alerts_complete (suc fuel) reads start found low h =
        let size = length-page most start in
        elim (Bool-cases (nat_eq (length (take most (drop start all))) most)) [
          | inl full ↦
              let same = (nat_eq_iff _ _).0 full in
              rw (never reads, never (reads + 1), full)
                (rw same (
                  fetch_alerts_complete fuel (reads + 2) (start + most)
                    (found ++ map extend (take most (drop start all))) (omega arith) (omega arith)
                  ∙ ap resolved (next_page extend most start found)))
          | inr short ↦
              rw (never reads, never (reads + 1), short)
                (ap (λ l. resolved (found ++ map extend l))
                  (take-all most (drop start all) (ground (arith, length-drop start all))))
        ]

-- Where the service answers with the slices of its alerts, at least one alert is asked for at a
-- time and nothing aborts, the loop ends, with all alerts, in their order, each extended.
pub get_alerts_by_detector_complete :
    (all : List Json) (aborted : ℕ → Bool) (detector_id detector_name : String)
    (alert_count : Option ℕ) (fuel : ℕ)
    → ((n : ℕ) → aborted n ≡ false)
    → alert_count ≢ some 0
    → length all < fuel
    → get_alerts_by_detector (slices all) aborted detector_id detector_name alert_count fuel
      ≡ resolved (map (extend_alert detector_id detector_name) all)
unfolding get_alerts_by_detector
get_alerts_by_detector_complete all aborted detector_id detector_name none fuel never some_asked h =
    fetch_alerts_complete all aborted (extend_alert detector_id detector_name) never
      default_alert_count (omega arith) fuel 0 0 [] (omega arith) (omega arith)
get_alerts_by_detector_complete all aborted detector_id detector_name (some n) fuel never some_asked
      h =
    fetch_alerts_complete all aborted (extend_alert detector_id detector_name) never n
      (ground arith) fuel 0 0 [] (omega arith) (omega arith)
