-- ===== src/Classify/Decide.antt =====
-- internal/classify/classify.go: the end of `Explain`, its conflicts, and `Hold`.
use serial_sync.Base.{
  ℕ, String, Bool, true, false, ◌&&◌, ◌||◌, Option, none, some, List, [], ◌∷◌, ◌++◌, ◌≟◌, is_empty,
  if◌then◌else◌, any, select, Matchers,
}
use serial_sync.Domain.Decision.{
  ContentReference, TrackDecision, attachment_preferred, attachment_only,
}
use serial_sync.Domain.Explanation.{RuleAttempt, DecisionConflict}
use serial_sync.Domain.Release.{Attachment, NormalizedRelease}
use serial_sync.Config.Rules.{RuleConfig, CompiledRule}
use serial_sync.Classify.Content.{
  none_reference, select_attachment, attachment_reference, select_content,
}
use serial_sync.Classify.Explain.{ExplainedDecision, review_decision, explain_rules}

-- The attempt matched by a collection or a tag.
unfoldable pub is_label : RuleAttempt → Bool
is_label attempt = any (λ s. s.kind ≟ "collection" || s.kind ≟ "tag") attempt.selectors

-- The attempt matched by an expression.
unfoldable pub is_title : RuleAttempt → Bool
is_title attempt =
    any (λ s. s.kind ≟ "title_regex" || s.kind ≟ "attachment_filename_regex") attempt.selectors

unfoldable pub labels_of : List RuleAttempt → List RuleAttempt
labels_of attempts = select (λ a. a.matched && is_label a) attempts

unfoldable pub titles_of : List RuleAttempt → List RuleAttempt
titles_of attempts = select (λ a. a.matched && is_title a) attempts

-- `domain.DecisionConflict{…}`
abbrev pub conflict : RuleAttempt → RuleAttempt → DecisionConflict
conflict label title = record {
  label_series = label.series;
  title_series = title.series;
  label_input = label.input;
  title_input = title.input;
}

-- The inner loop: the conflicts of one labelled attempt.
unfoldable pub conflicts_with : RuleAttempt → List RuleAttempt → List DecisionConflict
conflicts_with label [] = []
conflicts_with label (title ∷ titles) =
    let rest = conflicts_with label titles in
    if label.series ≟ title.series then rest else conflict label title ∷ rest

unfoldable pub conflicts_between : List RuleAttempt → List RuleAttempt → List DecisionConflict
unfolding conflicts_with
conflicts_between [] titles = []
conflicts_between (label ∷ labels) titles =
    conflicts_with label titles ++ conflicts_between labels titles

-- `decisionConflicts`
unfoldable pub decision_conflicts : List RuleAttempt → List DecisionConflict
unfolding conflicts_between labels_of titles_of
decision_conflicts attempts = conflicts_between (labels_of attempts) (titles_of attempts)

-- The attachments that the selected attempts name, in order.
unfoldable pub named_files : List Attachment → RuleAttempt → List Attachment
named_files files attempt =
    select (λ file. any (λ s. s.attachment ≟ file.file_name) attempt.selectors) files

unfoldable pub selected_files : List Attachment → List RuleAttempt → List Attachment
unfolding named_files
selected_files files [] = []
selected_files files (attempt ∷ attempts) =
    let rest = selected_files files attempts in
    if attempt.selected then named_files files attempt ++ rest else rest

-- The reference to what a decision delivers of the files that its selectors named.
unfoldable pub narrowed : List Attachment → Attachment × Bool → ContentReference
unfolding attachment_reference
narrowed files (file, true) = attachment_reference files file
narrowed files (_, false) = none_reference

-- `ContentStrategyAttachmentOnly` or `ContentStrategyAttachmentPreferred`
unfoldable pub wants_file : TrackDecision → Bool
wants_file decision =
    decision.content_strategy ≟ attachment_only || decision.content_strategy ≟ attachment_preferred

-- The selection once a rule decided: `named` are the files that its selectors named.
unfoldable pub over_named :
    Matchers
    → List Attachment
    → TrackDecision
    → ContentReference
    → List Attachment
    → ContentReference
unfolding wants_file narrowed select_attachment
over_named go files decision whole [] = whole
over_named go files decision whole (file ∷ named) =
    if wants_file decision
    then narrowed files (select_attachment go (file ∷ named) decision)
    else whole

-- The selection: the named files go before the strategy's own choice.
unfoldable pub selection_for :
    Matchers
    → List Attachment
    → TrackDecision
    → List RuleAttempt
    → Option RuleConfig
    → ContentReference
unfolding select_content selected_files over_named
selection_for go files decision attempts none = select_content go files decision
selection_for go files decision attempts (some rule) =
    over_named go files decision (select_content go files decision) (selected_files files attempts)

unfoldable pub selection_of : Matchers → NormalizedRelease → ExplainedDecision → ContentReference
unfolding selection_for
selection_of go release result =
    selection_for go release.attachments result.decision result.explanation.attempts result.rule

unfoldable pub is_override : Option RuleConfig → Bool
is_override none = false
is_override (some rule) = rule.override

-- `if result.Decision.CanonicalAuthor == ""`
unfoldable pub with_author : NormalizedRelease → TrackDecision → TrackDecision
with_author release decision = record decision {
  canonical_author =
      if is_empty decision.canonical_author
      then release.creator_name
      else decision.canonical_author;
}

-- What `Explain` does after its loop.
unfoldable pub finish : Matchers → NormalizedRelease → ExplainedDecision → ExplainedDecision
unfolding with_author selection_of decision_conflicts is_override
finish go release result =
    let authored = record result { decision = with_author release result.decision } in
    record authored {
      decision = record authored.decision {
        selected_content = some (selection_of go release authored);
      };
      explanation = record authored.explanation {
        conflicts =
            if is_override authored.rule
            then []
            else decision_conflicts authored.explanation.attempts;
      };
    }

-- `ExplainedDecision{Decision: reviewDecision(sourceID)}`
unfoldable pub undecided : String → ExplainedDecision
unfolding review_decision
undecided source_id = record {
  decision = review_decision source_id;
  rule = none;
  explanation = record { conflicts = []; held_reasons = []; attempts = []; overlaps = [] };
}

-- `Explain`; `count` is `textcontent.Count` of the release.
unfoldable pub explain :
    Matchers → ℕ → String → NormalizedRelease → List CompiledRule → ExplainedDecision
unfolding finish explain_rules undecided
explain go count source_id release rules =
    finish go release (explain_rules go count source_id release 0 rules (undecided source_id))

-- `Decide`
unfoldable pub decide_track :
    Matchers → ℕ → String → NormalizedRelease → List CompiledRule → TrackDecision
unfolding explain
decide_track go count source_id release rules = (explain go count source_id release rules).decision

-- `Hold`: the release waits for a review, under the id of the rule that matched.
unfoldable pub hold : String → ExplainedDecision → List String → ExplainedDecision
unfolding review_decision
hold source explained reasons = record explained {
  decision = record (review_decision source) {
    rule_id = explained.decision.rule_id;
    matched = true;
    selected_content = some none_reference;
  };
  explanation = record explained.explanation { held_reasons = reasons };
}
