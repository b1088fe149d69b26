-- ===== src/Overview/Findings/RuleIds.antt =====
-- The rules that updateFindings of public/pages/Overview/models/OverviewViewModel.ts asks for.
use wazuh_dashboard_security.Base.{
  ℕ, String, true, List, [], ◌∷◌, ◌++◌, ◌≡◌, ◌⊎◌, inl, inr, refl, sym, ◌∙◌, subst, ◌==◌, ◌||◌,
  if◌then◌else◌, Option, none, some, All, arith, eq_iff, eq_refl, includes,
}
use wazuh_dashboard_security.Server.Client.{Outcome, return, throw}
use wazuh_dashboard_security.Overview.{DetectorHit, Finding, OverviewFindingItem, Page}
use wazuh_dashboard_security.Overview.Findings.{
  is_threat_intel_query, rule_queries, add_ids, rule_id_of, item_of, finding_item, add_item,
  detector_items, Collected, after_detector, loaded, collect,
}

includes-append_one :
    (x id : String) (known : List String)
    → includes x (known ++ id ∷ []) ≡ includes x known || x == id
unfolding includes
includes-append_one x id [] = ground arith
includes-append_one x id (k ∷ known) = ground (arith, includes-append_one x id known)

includes-add_id :
    (x id : String) (known : List String)
    → includes x (if includes id known then known else known ++ id ∷ [])
      ≡ includes x known || x == id
includes-add_id x id known = grind (arith, includes-append_one x id known, eq_iff x id)

includes-add_ids :
    (x : String) (known ids : List String)
    → includes x (add_ids known ids) ≡ includes x known || includes x ids
unfolding includes add_ids
includes-add_ids x known [] = ground arith
includes-add_ids x known (id ∷ ids) =
    let more = if includes id known then known else known ++ id ∷ [] in
    ground (arith, includes-add_ids x more ids, includes-add_id x id known)

-- The rule is asked for, or it is none of the rules but a threat intelligence query.
abbrev pub IsCovered : List String → String → Type 0
IsCovered ids rule_id = (includes rule_id ids ≡ true) ⊎ (is_threat_intel_query rule_id ≡ true)

rule_id_of-cases :
    (rules qs : List String) (q rule_id : String)
    → rule_id_of rules (q ∷ qs) ≡ some rule_id
    → (rule_id ≡ q) ⊎ (includes rule_id rules ≡ true)
unfolding includes
rule_id_of-cases [] qs q rule_id e = inl (ground (arith, e))
rule_id_of-cases (id ∷ ids) qs q rule_id e = ground (arith, e, eq_refl id, eq_iff rule_id id)

IsCovered-first : (q : String) (qs : List String) → IsCovered (rule_queries (q ∷ qs)) q
unfolding rule_queries includes
IsCovered-first q qs = ground (arith, eq_refl q)

rule_id_of-IsCovered :
    (qs : List String) (rule_id : String)
    → rule_id_of (rule_queries qs) qs ≡ some rule_id
    → IsCovered (rule_queries qs) rule_id
unfolding rule_queries
rule_id_of-IsCovered [] rule_id e = absurd (ground (arith, e))
rule_id_of-IsCovered (q ∷ qs) rule_id e =
    elim (rule_id_of-cases (rule_queries (q ∷ qs)) qs q rule_id e) [
      | inl same ↦
          subst (λ r. IsCovered (rule_queries (q ∷ qs)) r) (sym same) (IsCovered-first q qs)
      | inr asked ↦ inl asked
    ]

-- Each id of the first list is one of the second.
abbrev Grows : List String → List String → Type 0
Grows ids more = (x : String) → includes x ids ≡ true → includes x more ≡ true

IsCovered-Grows :
    (ids more : List String) (r : String) → Grows ids more → IsCovered ids r → IsCovered more r
IsCovered-Grows ids more r grows (inl asked) = inl (grows r asked)
IsCovered-Grows ids more r grows (inr intel) = inr intel

add_ids-Grows : (ids more : List String) → Grows ids (add_ids ids more)
add_ids-Grows ids more x h = includes-add_ids x ids more ∙ rw h refl

add_ids-adds : (ids more : List String) → Grows more (add_ids ids more)
add_ids-adds ids more x h = ground (arith, includes-add_ids x ids more, h)

module _ (page : Page) where
  abbrev pub AreCovered : List String → List OverviewFindingItem → Type 0
  AreCovered ids items = All (λ item. IsCovered ids item.rule_id) items

  abbrev pub AreCoveredIf : List String → Outcome (List OverviewFindingItem) → Type 0
  AreCoveredIf ids (return items) = AreCovered ids items
  AreCoveredIf ids (throw error) = Unit

  AreCovered-Grows :
      (ids more : List String) (items : List OverviewFindingItem)
      → Grows ids more
      → AreCovered ids items
      → AreCovered more items
  AreCovered-Grows ids more [] grows h = tt
  AreCovered-Grows ids more (item ∷ items) grows h =
      (IsCovered-Grows ids more item.rule_id grows h.0, AreCovered-Grows ids more items grows h.1)

  AreCovered-append :
      (ids : List String) (xs ys : List OverviewFindingItem)
      → AreCovered ids xs
      → AreCovered ids ys
      → AreCovered ids (xs ++ ys)
  AreCovered-append ids [] ys h k = k
  AreCovered-append ids (x ∷ xs) ys h k = (h.0, AreCovered-append ids xs ys h.1 k)

  abbrev IsCoveredIfMade : List String → Option OverviewFindingItem → Type 0
  IsCoveredIfMade ids none = Unit
  IsCoveredIfMade ids (some item) = IsCovered ids item.rule_id

  item_of-IsCovered :
      (d : DetectorHit) (f : Finding) (o : Option String) (item : OverviewFindingItem)
      → rule_id_of (rule_queries f.queries) f.queries ≡ o
      → item_of page d f o ≡ some item
      → IsCovered (rule_queries f.queries) item.rule_id
  item_of-IsCovered d f none item found e = absurd (ground (arith, e))
  item_of-IsCovered d f (some rule_id) item found e =
      subst (IsCoveredIfMade (rule_queries f.queries)) e
        (rule_id_of-IsCovered f.queries rule_id found)

  -- The ids of the rules that were met cover the items, and the ids that were met before.
  record Covers (before : List String) (made : Outcome (List OverviewFindingItem) × List String)
      : Type 0 where
    grows : Grows before made.1
    covered : AreCoveredIf made.1 made.0

  add_item-Covers :
      (ids met : List String) (o : Option OverviewFindingItem)
      (rest : Outcome (List OverviewFindingItem) × List String)
      → Grows ids met
      → ((item : OverviewFindingItem) → o ≡ some item → IsCovered met item.rule_id)
      → Covers met rest
      → Covers ids (add_item page o met rest)
  add_item-Covers ids met none rest grows h later = record { grows = grows; covered = tt }
  add_item-Covers ids met (some item) (return items, more) grows h later = record {
    grows = λ x e. later.grows x (grows x e);
    covered = (IsCovered-Grows met more item.rule_id later.grows (h item refl), later.covered);
  }
  add_item-Covers ids met (some item) (throw error, more) grows h later = record {
    grows = λ x e. later.grows x (grows x e);
    covered = tt;
  }

  detector_items-Covers :
      (d : DetectorHit) (ids : List String) (fs : List Finding)
      → Covers ids (detector_items page d ids fs)
  unfolding detector_items finding_item
  detector_items-Covers d ids [] = record { grows = λ x h. h; covered = tt }
  detector_items-Covers d ids (f ∷ fs) =
      let rules = rule_queries f.queries in
      let met = add_ids ids rules in
      add_item-Covers ids met (finding_item page d f) (detector_items page d met fs)
        (add_ids-Grows ids rules)
        (λ item e.
          IsCovered-Grows rules met item.rule_id (add_ids-adds ids rules)
            (item_of-IsCovered d f _ item refl e))
        (detector_items-Covers d met fs)

  loaded-Covers :
      (d : DetectorHit) (ids : List String) (r : Outcome (List Finding))
      → Covers ids (loaded page d ids r)
  loaded-Covers d ids (return findings) = detector_items-Covers d ids findings
  loaded-Covers d ids (throw error) = record { grows = λ x h. h; covered = tt }

  abbrev IsCollected : Collected page → Type 0
  IsCollected c = AreCovered c.rule_ids c.collected_items

  after_detector-IsCollected :
      (items : List OverviewFindingItem) (ids : List String)
      (made : Outcome (List OverviewFindingItem) × List String)
      (next : List OverviewFindingItem → List String → Collected page)
      → AreCovered ids items
      → Covers ids made
      → ((all : List OverviewFindingItem) (known : List String)
          → AreCovered known all
          → IsCollected (next all known))
      → IsCollected (after_detector page items made next)
  after_detector-IsCollected items ids (throw error, known) next h made later =
      AreCovered-Grows ids known items made.grows h
  after_detector-IsCollected items ids (return more, known) next h made later =
      later (items ++ more) known (
        AreCovered-append known items more (AreCovered-Grows ids known items made.grows h)
          made.covered)

  collect_from-IsCollected :
      (start stop : ℕ) (ds : List DetectorHit) (items : List OverviewFindingItem)
      (ids : List String)
      → AreCovered ids items
      → IsCollected (collect page start stop ds items ids)
  unfolding collect
  collect_from-IsCollected start stop [] items ids h = h
  collect_from-IsCollected start stop (d ∷ ds) items ids h =
      after_detector-IsCollected items ids
        (loaded page d ids (page.findings_per_detector d start stop)) (collect page start stop ds) h
        (loaded-Covers d ids (page.findings_per_detector d start stop))
        (collect_from-IsCollected start stop ds)

  -- Every item that is collected from the detectors, also where one of them fails, has a rule that
  -- is among those asked for, unless what stands for its rule is a threat intelligence query.
  pub collect-covers :
      (start stop : ℕ) (ds : List DetectorHit)
      → AreCovered
          (collect page start stop ds [] []).rule_ids
          (collect page start stop ds [] []).collected_items
  collect-covers start stop ds = collect_from-IsCollected start stop ds [] [] tt
