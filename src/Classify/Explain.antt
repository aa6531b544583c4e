-- ===== src/Classify/Explain.antt =====
-- internal/classify/classify.go, `Explain`: the first rule of the source that applies decides.
use serial_sync.Base.{
  ℕ, ◌+◌, String, Bool, true, false, not, ◌&&◌, Option, none, some, List, [], ◌∷◌, ◌++◌, ◌⧺◌, ◌≟◌,
  is_empty, if◌then◌else◌, all, itoa, trim_space, dashed, Matchers,
}
use serial_sync.Domain.Decision.{TrackDecision, manual}
use serial_sync.Domain.Explanation.{GuardResult, RuleAttempt, DecisionExplanation}
use serial_sync.Domain.Release.{NormalizedRelease}
use serial_sync.Config.Rules.{RuleConfig, CompiledRule}
use serial_sync.Classify.Select.{select_matches, evaluate_guards, has_none}

pub record ExplainedDecision : Type 0 where
  pub decision : TrackDecision
  pub rule : Option RuleConfig
  pub explanation : DecisionExplanation

unfoldable pub fallback : String → String → String
fallback value default = if is_empty value then default else value

-- `ruleID`
unfoldable pub rule_id : String → ℕ → RuleConfig → String
unfolding fallback
rule_id source_id idx rule =
    if rule.override
    then source_id ⧺ ("/override/" ⧺ rule.release_id)
    else source_id
      ⧺ ("/rule/"
          ⧺ (fallback (dashed (trim_space rule.track_key)) "default"
              ⧺ ("/" ⧺ (fallback (trim_space rule.match_type) "selectors" ⧺ ("/" ⧺ itoa idx)))))

-- `reviewDecision`
unfoldable pub review_decision : String → TrackDecision
review_decision source_id = record {
  publication = none;
  selected_content = none;
  book_id = "";
  sequence = none;
  track_key = "unmatched";
  track_name = "Unmatched";
  series_id = "unmatched";
  rule_id = "fallback/" ⧺ (source_id ⧺ "/unmatched");
  release_role = "unknown";
  content_strategy = manual;
  output_format = "preserve";
  preface_mode = "none";
  canonical_author = "";
  attachment_glob = [];
  attachment_priority = [];
  anthology_mode = false;
  matched = false;
}

-- The decision that a rule makes, at index `idx` of the rules.
unfoldable pub decision_of : String → NormalizedRelease → ℕ → RuleConfig → TrackDecision
unfolding fallback rule_id
decision_of source_id release idx rule = record {
  publication = none;
  selected_content = none;
  book_id = rule.book_id;
  sequence = none;
  track_key = rule.track_key;
  track_name = fallback rule.track_name rule.track_key;
  series_id = fallback rule.series_id rule.track_key;
  rule_id = rule_id source_id idx rule;
  release_role = rule.release_role;
  content_strategy = rule.content_strategy;
  output_format = fallback rule.output_format "preserve";
  preface_mode = fallback rule.preface_mode "none";
  canonical_author = fallback rule.canonical_author release.creator_name;
  attachment_glob = rule.attachment_glob;
  attachment_priority = rule.attachment_priority;
  anthology_mode = false;
  matched = true;
}

-- The attempt of one rule, not yet marked as selected.
unfoldable pub attempt_of :
    Matchers → ℕ → String → NormalizedRelease → ℕ → CompiledRule → RuleAttempt
unfolding fallback rule_id select_matches evaluate_guards
attempt_of go count source_id release idx compiled =
    let rule = compiled.rule in
    let selectors = select_matches go compiled release in
    let guards =
      if has_none selectors
      then []
      else evaluate_guards go count rule.guards compiled.selectors release in
    record {
      reason = rule.reason;
      input = rule_id source_id idx rule;
      series = fallback rule.series_id rule.track_key;
      selectors = selectors;
      guards = guards;
      matched = not (has_none selectors) && all GuardResult.passed guards;
      selected = false;
    }

abbrev is_some : {A : Type 0} → Option A → Bool
is_some none = false
is_some (some _) = true

-- The state after an attempt at a rule: the first that applies decides, later ones overlap.
unfoldable pub record_attempt :
    String
    → NormalizedRelease
    → ℕ
    → RuleConfig
    → RuleAttempt
    → ExplainedDecision
    → ExplainedDecision
unfolding decision_of
record_attempt source_id release idx rule attempt result =
    let selected = attempt.matched && not (is_some result.rule) in
    let explanation = record result.explanation {
      attempts = result.explanation.attempts ++ record attempt { selected = selected } ∷ [];
    } in
    if not attempt.matched
    then record result { explanation = explanation }
    else if is_some result.rule
    then record result {
      explanation = record explanation { overlaps = explanation.overlaps ++ attempt.input ∷ [] };
    }
    else record {
      decision = decision_of source_id release idx rule;
      rule = some rule;
      explanation = explanation;
    }

-- The loop over the rules; `count` is `textcontent.Count` of the release.
unfoldable pub explain_rules :
    Matchers
    → ℕ
    → String
    → NormalizedRelease
    → ℕ
    → List CompiledRule
    → ExplainedDecision
    → ExplainedDecision
unfolding record_attempt attempt_of
explain_rules go count source_id release idx [] result = result
explain_rules go count source_id release idx (compiled ∷ rules) result =
    explain_rules go count source_id release (idx + 1) rules (
      if compiled.rule.source ≟ source_id
      then record_attempt source_id release idx compiled.rule
          (attempt_of go count source_id release idx compiled) result
      else result)
