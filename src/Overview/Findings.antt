-- ===== src/Overview/Findings.antt =====
-- updateFindings of public/pages/Overview/models/OverviewViewModel.ts, and what it calls. A finding
-- has the ids of its queries.
pub mod RuleIds
use wazuh_dashboard_security.Base.{
  ℕ, String, Bool, true, false, not, List, [], ◌∷◌, ◌++◌, ◌==◌, ◌||◌, if◌then◌else◌, Option, none,
  some, Dict, lookup, insert, includes, keep, map, values,
}
use wazuh_dashboard_security.Json.{Json}
use wazuh_dashboard_security.Json.Text.{is_prefix}
use wazuh_dashboard_security.Server.Client.{Outcome, return, throw}
use wazuh_dashboard_security.Overview.{
  DetectorHit, Finding, RuleSource, RuleHit, OverviewFindingItem, Actor, Page, toast,
}

-- The detectors by their ids: of two with one id the later is kept, at the earlier one's place.
unfoldable pub detector_info : Dict DetectorHit → List DetectorHit → Dict DetectorHit
unfolding insert
detector_info info [] = info
detector_info info (d ∷ ds) = detector_info (insert d.id d info) ds

unfoldable pub is_threat_intel_query : String → Bool
unfolding is_prefix
is_threat_intel_query id = is_prefix "threat_intel_" id

unfoldable pub rule_queries : List String → List String
unfolding is_threat_intel_query
rule_queries ids = keep (λ id. not (is_threat_intel_query id)) ids

-- ids.forEach((id) => ruleIds.add(id))
unfoldable pub add_ids : List String → List String → List String
unfolding includes
add_ids known [] = known
add_ids known (id ∷ ids) =
    let more = if includes id known then known else known ++ id ∷ [] in add_ids more ids

-- ruleQueries[0]?.id || finding.queries[0].id, which throws where there is no query.
abbrev pub rule_id_of : List String → List String → Option String
rule_id_of (id ∷ ids) (q ∷ qs) = some (if id == "" then q else id)
rule_id_of (id ∷ ids) [] = if id == "" then none else some id
rule_id_of [] (q ∷ qs) = some q
rule_id_of [] [] = none

module _ (page : Page) where
  abbrev pub item_of : DetectorHit → Finding → Option String → Option OverviewFindingItem
  item_of d f none = none
  item_of d f (some rule_id) = some (record {
    id = f.id;
    time = page.to_minute f.timestamp;
    finding_name = f.id;
    detector = d.name;
    log_type = d.detector_type;
    rule_id = rule_id;
    rule_name = "";
    rule_severity = "";
    is_threat_intel_only_finding = f.detection_type == "Threat intelligence";
  })

  unfoldable pub finding_item : DetectorHit → Finding → Option OverviewFindingItem
  unfolding rule_queries
  finding_item d f = item_of d f (rule_id_of (rule_queries f.queries) f.queries)

  -- An item before those of the findings that follow. One that cannot be made throws, with the ids
  -- that were met before.
  abbrev pub add_item :
      Option OverviewFindingItem
      → List String
      → Outcome (List OverviewFindingItem) × List String
      → Outcome (List OverviewFindingItem) × List String
  add_item none met rest = (throw page.type_error, met)
  add_item (some item) met (return items, ids) = (return (item ∷ items), ids)
  add_item (some item) met (throw error, ids) = (throw error, ids)

  -- The items of one detector and the ids of the rules met: an id is met before the item of its
  -- finding is made.
  unfoldable pub detector_items :
      DetectorHit → List String → List Finding → Outcome (List OverviewFindingItem) × List String
  unfolding finding_item add_ids
  detector_items d ids [] = (return [], ids)
  detector_items d ids (f ∷ fs) =
      let met = add_ids ids (rule_queries f.queries) in
      add_item (finding_item d f) met (detector_items d met fs)

  -- The items of the detectors up to the first one that fails, the ids of the rules, and whether
  -- one failed.
  pub record Collected : Type 0 where
    pub collected_items : List OverviewFindingItem
    pub rule_ids : List String
    pub failed : Bool

  -- What a detector adds; the detectors after it follow where it did not fail.
  abbrev pub after_detector :
      List OverviewFindingItem
      → Outcome (List OverviewFindingItem) × List String
      → (List OverviewFindingItem → List String → Collected)
      → Collected
  after_detector items (throw error, ids) next = record {
    collected_items = items;
    rule_ids = ids;
    failed = true;
  }
  after_detector items (return more, ids) next = next (items ++ more) ids

  abbrev pub loaded :
      DetectorHit
      → List String
      → Outcome (List Finding)
      → Outcome (List OverviewFindingItem) × List String
  loaded d ids (throw error) = (throw error, ids)
  loaded d ids (return findings) = detector_items d ids findings

  unfoldable pub collect :
      ℕ → ℕ → List DetectorHit → List OverviewFindingItem → List String → Collected
  unfolding detector_items
  collect start stop [] items ids = record {
    collected_items = items;
    rule_ids = ids;
    failed = false;
  }
  collect start stop (d ∷ ds) items ids =
      after_detector items (loaded d ids (page.findings_per_detector d start stop))
        (collect start stop ds)

  -- ruleById: the custom rules are written over the pre-packaged ones.
  unfoldable pub add_sources : List RuleHit → Dict RuleSource → Dict RuleSource
  unfolding insert
  add_sources [] m = m
  add_sources (hit ∷ hits) m = add_sources hits (insert hit.id hit.source m)

  -- The rules by their ids, or an error of one of the two requests.
  unfoldable pub rules_by_id : List String → Outcome (Dict RuleSource)
  unfolding add_sources
  rules_by_id ids = elim (page.custom_rules ids) [
    | throw error ↦ throw error
    | return custom ↦ elim (page.pre_packaged_rules ids) [
      | throw error ↦ throw error
      | return pre_packaged ↦ return (add_sources custom (add_sources pre_packaged []))
    ]
  ]

  -- An error is reported, and there are no rules.
  unfoldable pub get_rules : List String → Actor → Dict RuleSource × Actor
  unfolding rules_by_id
  get_rules ids a = elim (rules_by_id ids) [
    | return rules ↦ (rules, a)
    | throw error ↦ ([], toast "rules" a)
  ]

  -- s || '-', of a text that may be missing.
  abbrev pub or_dash : Option String → String
  or_dash none = "-"
  or_dash (some s) = if s == "" then "-" else s

  -- level === 'critical' ? level : item.ruleSeverity || level
  abbrev pub severity_of : String → Option RuleSource → Option String
  severity_of rule_severity none = if rule_severity == "" then none else some rule_severity
  severity_of rule_severity (some r) =
      if r.level == "critical"
      then some r.level
      else (if rule_severity == "" then some r.level else some rule_severity)

  abbrev pub title_of : Bool → Option RuleSource → Option String
  title_of true r = some "Threat intelligence feed"
  title_of false none = none
  title_of false (some r) = some r.title

  unfoldable pub named_item : Dict RuleSource → OverviewFindingItem → OverviewFindingItem
  unfolding lookup
  named_item rules item =
      let rule = lookup item.rule_id rules in
      record item {
        rule_name = or_dash (title_of item.is_threat_intel_only_finding rule);
        rule_severity = or_dash (severity_of item.rule_severity rule);
      }

  abbrev pub duration_between : Option ℕ → Option ℕ → Outcome (ℕ × ℕ)
  duration_between (some start) (some stop) = return (start, stop)
  duration_between (some start) none = throw page.type_error
  duration_between none stop = throw page.type_error

  -- getDuration, which throws on a date that is not one.
  abbrev pub get_duration : Actor → Outcome (ℕ × ℕ)
  get_duration a = duration_between (page.parse_date a.start_time) (page.parse_date a.end_time)

  abbrev pub report_failed : Bool → Actor → Actor
  report_failed failed a = if failed then toast "findings" a else a

  unfoldable pub show_collected : Collected → Actor → Actor
  unfolding get_rules named_item
  show_collected c a =
      let answered = get_rules c.rule_ids (report_failed c.failed a) in
      let b = answered.1 in
      record b {
        overview_view_model = record (b.overview_view_model) {
          findings =
              keep (λ item. page.is_between b.start_time b.end_time item.time)
                (map (named_item answered.0) c.collected_items);
        };
      }

  unfoldable pub update_findings : Actor → Outcome (Unit {0}) × Actor
  unfolding collect detector_info show_collected
  update_findings a = elim (get_duration a) [
    | throw error ↦ (throw error, a)
    | return duration ↦ (
      return tt,
      show_collected
          (collect duration.0 duration.1 (values (detector_info [] a.overview_view_model.detectors))
            [] [])
          a,
    )
  ]
