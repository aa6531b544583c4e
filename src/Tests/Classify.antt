-- ===== src/Tests/Classify.antt =====
-- Routing on a small set of rules: a collection, then an attachment's name, then a fallback.
use serial_sync.Base.{
  String, false, none, some, List, [], ◌∷◌, ◌≡◌, refl, ◌↔◌, ◌≟◌, In, ◌⧺◌, dashed, trim_space, itoa,
  Matchers, pos,
}
use serial_sync.Domain.Release.{Attachment, NormalizedRelease}
use serial_sync.Domain.Explanation.{RuleAttempt, DecisionConflict}
use serial_sync.Config.Rules.{Guards, RuleConfig, CompiledSelectors, CompiledRule}
use serial_sync.Classify.Explain.{ExplainedDecision}
use serial_sync.Classify.Decide.{
  is_label, is_title, conflict, decision_conflicts, explain, with_author,
}
use serial_sync.Classify.FirstRule.{first_applying, verdict, explain-first_rule}
use serial_sync.Classify.Conflicts.{MatchedBy, decision_conflicts-In}

-- No case folding, no globs and no expressions: the ones below are given compiled.
abbrev pub go : Matchers
go = record {
  fold = λ c. c;
  lower = λ c. c;
  glob = λ pattern name. pattern ≟ name;
  regexp = λ text. none;
}

abbrev no_guards : Guards
no_guards = record {
  hold_candidates = false;
  min_body_chars = none;
  unless_tags = [];
  unless_title_patterns = [];
}

-- A rule of the source "src", by the series that it routes to.
abbrev pub rule_to : String → RuleConfig
rule_to series = record {
  collections = [];
  tags = [];
  title_patterns = [];
  attachment_patterns = [];
  guards = no_guards;
  override = false;
  release_id = "";
  reason = "";
  book_id = "";
  series_id = series;
  source = "src";
  priority = pos 0;
  match_type = "";
  match_value = "";
  track_key = series;
  track_name = "";
  canonical_author = "";
  release_role = "chapter";
  content_strategy = "attachment_preferred";
  output_format = "";
  preface_mode = "";
  attachment_glob = [];
  attachment_priority = [];
  anthology_mode = none;
}

abbrev no_selectors : CompiledSelectors
no_selectors = record {
  title = [];
  attachments = [];
  unless_title = [];
  legacy_title = none;
  legacy_attachment = none;
}

-- One rule's guard refuses the release, the next two apply.
abbrev rules : List CompiledRule
rules =
    record {
      rule = record (rule_to "long") {
        tags = "story" ∷ [];
        guards = record no_guards { min_body_chars = some 100 };
      };
      selectors = no_selectors;
    }
    ∷ record {
      rule = record (rule_to "story") { attachment_patterns = "b" ∷ [] };
      selectors = record no_selectors { attachments = some (λ t. t ≟ "b.epub") ∷ [] };
    }
    ∷ record { rule = record (rule_to "other") { tags = "story" ∷ [] }; selectors = no_selectors }
    ∷ []

abbrev attachment : String → Attachment
attachment name = record {
  provider_media_id = name;
  sha256 = "sha-" ⧺ name;
  file_name = name;
  mime_type = "";
  download_url = "";
  local_path = name;
}

abbrev pub post : NormalizedRelease
post = record {
  enrichment = none;
  provider = "patreon";
  provider_release_id = "p1";
  url = "";
  title = "Chapter 1";
  published_at = 0;
  edited_at = 0;
  post_type = "";
  visibility_state = "";
  text_html = "";
  text_plain = "";
  tags = "story" ∷ [];
  collections = [];
  attachments = attachment "a.epub" ∷ attachment "b.epub" ∷ [];
  creator_id = "";
  creator_name = "Author";
  source_type = "";
}

abbrev explained : ExplainedDecision
explained = explain go 10 "src" post rules

-- The second rule decides, by the file that its expression names.
explained_series : explained.decision.series_id ≡ "story"
unfolding explain
explained_series = refl

explained_overlaps : explained.explanation.overlaps ≡ "src/rule/other/selectors/2" ∷ []
unfolding explain dashed trim_space itoa
explained_overlaps = refl

explain-first_rule_example :
    (explained.rule ≡ (verdict "src" post (first_applying go 10 "src" post 0 rules)).1)
    × (explained.decision
        ≡ record (with_author post
            (verdict "src" post (first_applying go 10 "src" post 0 rules)).0) {
              selected_content = explained.decision.selected_content;
            })
explain-first_rule_example = explain-first_rule go 10 "src" post rules

abbrev reported : DecisionConflict
reported = record {
  label_series = "other";
  title_series = "story";
  label_input = "src/rule/other/selectors/2";
  title_input = "src/rule/story/selectors/1";
}

decision_conflicts-In_example : In reported (decision_conflicts explained.explanation.attempts) ↔ (
    (label title : RuleAttempt) × MatchedBy is_label explained.explanation.attempts label
    × MatchedBy is_title explained.explanation.attempts title
    × ((label.series ≟ title.series) ≡ false)
    × (reported ≡ conflict label title))
decision_conflicts-In_example = decision_conflicts-In explained.explanation.attempts reported
