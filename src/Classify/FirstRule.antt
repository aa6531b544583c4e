-- ===== src/Classify/FirstRule.antt =====
-- internal/classify/classify.go, `Explain`: which rule decides, and what the explanation records.
use serial_sync.Base.{
  ℕ, ◌+◌, String, Bool, true, false, not, ◌&&◌, Option, none, some, List, [], ◌∷◌, ◌≡◌, refl, ◌∙◌,
  ap, ◌≟◌, if◌then◌else◌, Bool-cases, if_cases, &&_true, inl, inr, Matchers,
}
use serial_sync.Domain.Decision.{TrackDecision}
use serial_sync.Domain.Explanation.{RuleAttempt}
use serial_sync.Domain.Release.{NormalizedRelease}
use serial_sync.Config.Rules.{RuleConfig, CompiledRule}
use serial_sync.Classify.Explain.{
  ExplainedDecision, review_decision, decision_of, attempt_of, record_attempt, explain_rules,
}
use serial_sync.Classify.Decide.{explain, finish, undecided, with_author}

-- The rule is the source's, its selectors match and its guards pass.
unfoldable pub applies : Matchers → ℕ → String → NormalizedRelease → ℕ → CompiledRule → Bool
applies go count source_id release idx compiled =
    compiled.rule.source ≟ source_id && (attempt_of go count source_id release idx compiled).matched

-- The first rule that applies, with its index.
unfoldable pub first_applying :
    Matchers → ℕ → String → NormalizedRelease → ℕ → List CompiledRule → Option (ℕ × RuleConfig)
unfolding applies
first_applying go count source_id release idx [] = none
first_applying go count source_id release idx (c ∷ rules) =
    if applies go count source_id release idx c
    then some (idx, c.rule)
    else first_applying go count source_id release (idx + 1) rules

-- The decision and the rule, before the content is selected.
unfoldable pub verdict :
    String → NormalizedRelease → Option (ℕ × RuleConfig) → TrackDecision × Option RuleConfig
verdict source_id release none = (review_decision source_id, none)
verdict source_id release (some (idx, rule)) = (decision_of source_id release idx rule, some rule)

verdict_unselected :
    (source_id : String) (release : NormalizedRelease) (v : Option (ℕ × RuleConfig))
    → (verdict source_id release v).0.selected_content ≡ none
unfolding verdict review_decision decision_of
verdict_unselected source_id release none = refl
verdict_unselected source_id release (some (idx, rule)) = refl

-- Both results agree on the decision and on the rule.
abbrev SameVerdict : ExplainedDecision → ExplainedDecision → Type 0
SameVerdict a b = (a.decision ≡ b.decision) × (a.rule ≡ b.rule)

record_attempt-decided :
    (source_id : String) (release : NormalizedRelease) (idx : ℕ) (rule : RuleConfig)
    (attempt : RuleAttempt) (result : ExplainedDecision) (decided : RuleConfig)
    → result.rule ≡ some decided
    → SameVerdict (record_attempt source_id release idx rule attempt result) result
unfolding record_attempt
record_attempt-decided source_id release idx rule attempt result decided h =
    if_cases (λ x. SameVerdict x result) (not attempt.matched) _ _ (λ _. (refl, refl))
      (λ _. rw h (refl, refl))

module _ (go : Matchers) (count : ℕ) (source_id : String) (release : NormalizedRelease) where
  -- One round of the loop.
  abbrev try : ℕ → CompiledRule → ExplainedDecision → ExplainedDecision
  try idx c result =
      if c.rule.source ≟ source_id
      then record_attempt source_id release idx c.rule (attempt_of go count source_id release idx c)
          result
      else result

  try-decided :
      (idx : ℕ) (c : CompiledRule) (result : ExplainedDecision) (rule : RuleConfig)
      → result.rule ≡ some rule
      → SameVerdict (try idx c result) result
  try-decided idx c result rule h =
      if_cases (λ x. SameVerdict x result) (c.rule.source ≟ source_id) _ _
        (λ _. record_attempt-decided source_id release idx c.rule _ result rule h)
        (λ _. (refl, refl))

  -- Once a rule has decided, the later ones change neither the decision nor the rule.
  explain_rules_decided :
      (idx : ℕ) (rules : List CompiledRule) (result : ExplainedDecision) (rule : RuleConfig)
      → result.rule ≡ some rule
      → SameVerdict (explain_rules go count source_id release idx rules result) result
  unfolding explain_rules
  explain_rules_decided idx [] result rule h = (refl, refl)
  explain_rules_decided idx (c ∷ rules) result rule h =
      let (d, r) = try-decided idx c result rule h in
      let (d', r') = explain_rules_decided (idx + 1) rules (try idx c result) rule (r ∙ h) in
      (d' ∙ d, r' ∙ r)

  -- Before a rule has decided, the first that applies does.
  Verdict : Option (ℕ × RuleConfig) → ExplainedDecision → ExplainedDecision → Type 0
  Verdict none out result = SameVerdict out result
  Verdict (some (idx, rule)) out result =
      (out.decision ≡ decision_of source_id release idx rule) × (out.rule ≡ some rule)

  Verdict-trans :
      (v : Option (ℕ × RuleConfig)) (out a b : ExplainedDecision)
      → Verdict v out a
      → SameVerdict a b
      → Verdict v out b
  unfolding Verdict
  Verdict-trans none out a b (d, r) (d', r') = (d ∙ d', r ∙ r')
  Verdict-trans (some (idx, rule)) out a b h _ = h

  Verdict-verdict :
      (v : Option (ℕ × RuleConfig)) (out : ExplainedDecision)
      → Verdict v out (undecided source_id)
      → (out.decision ≡ (verdict source_id release v).0)
        × (out.rule ≡ (verdict source_id release v).1)
  unfolding Verdict verdict undecided
  Verdict-verdict none out h = h
  Verdict-verdict (some (idx, rule)) out h = h

  try-applies :
      (idx : ℕ) (c : CompiledRule) (result : ExplainedDecision)
      → result.rule ≡ none
      → applies go count source_id release idx c ≡ true
      → Verdict (some (idx, c.rule)) (try idx c result) result
  unfolding applies record_attempt Verdict
  try-applies idx c result h a =
      let (s, m) =
        &&_true (c.rule.source ≟ source_id) ((attempt_of go count source_id release idx c).matched)
          a in
      rw (s, m, h) (refl, refl)

  try-passes :
      (idx : ℕ) (c : CompiledRule) (result : ExplainedDecision)
      → applies go count source_id release idx c ≡ false
      → SameVerdict (try idx c result) result
  unfolding applies record_attempt
  try-passes idx c result a = elim (Bool-cases (c.rule.source ≟ source_id)) [
    | inl s ↦ (let m = rw s at a in rw (s, m) (refl, refl))
    | inr s ↦ rw s (refl, refl)
  ]

  explain_rules_lem :
      (idx : ℕ) (rules : List CompiledRule) (result : ExplainedDecision)
      → result.rule ≡ none
      → Verdict
          (first_applying go count source_id release idx rules)
          (explain_rules go count source_id release idx rules result)
          result
  unfolding explain_rules Verdict first_applying
  explain_rules_lem idx [] result h = (refl, refl)
  explain_rules_lem idx (c ∷ rules) result h =
      elim (Bool-cases (applies go count source_id release idx c)) [
        | inl a ↦
            let (d, r) = try-applies idx c result h a in
            let (d', r') = explain_rules_decided (idx + 1) rules (try idx c result) c.rule r in
            rw a (d' ∙ d, r' ∙ r)
        | inr n ↦
            let (d, r) = try-passes idx c result n in
            let rest = explain_rules_lem (idx + 1) rules (try idx c result) (r ∙ h) in
            rw n (Verdict-trans _ _ (try idx c result) result rest (d, r))
      ]

  -- The loop leaves the content to be selected.
  pub explain_rules_unselected :
      (rules : List CompiledRule)
      → (explain_rules go count source_id release 0 rules
          (undecided source_id)).decision.selected_content
        ≡ none
  unfolding undecided
  explain_rules_unselected rules =
      let v = first_applying go count source_id release 0 rules in
      let (d, _) = Verdict-verdict v _ (explain_rules_lem 0 rules (undecided source_id) refl) in
      ap TrackDecision.selected_content d ∙ verdict_unselected source_id release v

  -- The first rule of the source whose selectors match and whose guards all pass decides, whatever
  -- the later rules say; without one the release goes to review. Only the author, which falls back
  -- to the creator, and the selected content are set afterwards.
  pub explain-first_rule :
      (rules : List CompiledRule)
      → (let out = explain go count source_id release rules in
          let v = verdict source_id release (first_applying go count source_id release 0 rules) in
          (out.rule ≡ v.1)
          × (out.decision ≡ record (with_author release v.0) {
            selected_content = out.decision.selected_content;
          }))
  unfolding explain finish with_author undecided
  explain-first_rule rules =
      let (d, r) =
        Verdict-verdict (first_applying go count source_id release 0 rules) _
          (explain_rules_lem 0 rules (undecided source_id) refl) in
      (r, rw d refl)
