-- ===== src/Classify/Override.antt =====
-- internal/config/ruleset.go and internal/classify: an override goes before every other rule.
use serial_sync.Base.{
  ℕ, ◌+◌, String, true, false, not, ◌&&◌, Option, none, some, List, [], ◌∷◌, ◌≡◌, refl, sym, ◌⊎◌,
  inl, inr, ◌∙◌, ap, ◌≟◌, is_empty, Bool-cases, map, All, In, All-In, select-In, false≢true,
  eq_refl, &&_true, sort_by-In, Matchers,
}
use serial_sync.Domain.Release.{NormalizedRelease}
use serial_sync.Config.Rules.{RuleConfig, CompiledRule}
use serial_sync.Config.RuleSet.{
  compile_rule, compile_selectors, rule_before, compile_rule_set, for_source,
}
use serial_sync.Config.RuleOrder.{
  IsOverride, IsPlain, OverridesFirst, compile_rule_set-OverridesFirst, for_source-OverridesFirst,
}
use serial_sync.Classify.Explain.{attempt_of}
use serial_sync.Classify.Select.{select_matches, evaluate_guards, has_none}
use serial_sync.Classify.Decide.{explain}
use serial_sync.Classify.FirstRule.{applies, first_applying, verdict, explain-first_rule}

In-map :
    (f : RuleConfig → CompiledRule) (x : RuleConfig) (xs : List RuleConfig)
    → In x xs
    → In (f x) (map f xs)
In-map f x [] h = absurd h
In-map f x (y ∷ xs) (inl e) = inl (ap f e)
In-map f x (y ∷ xs) (inr h) = inr (In-map f x xs h)

-- Before an override stand only overrides.
first-IsOverride :
    (c d : CompiledRule) (items : List CompiledRule)
    → IsOverride c
    → IsOverride d ⊎ All IsPlain items
    → In c (d ∷ items)
    → IsOverride d
first-IsOverride c d items o f (inl e) = ap (λ x. x.rule.override) (sym e) ∙ o
first-IsOverride c d items o (inl v) (inr h) = v
first-IsOverride c d items o (inr a) (inr h) =
    absurd (false≢true (sym (All-In IsPlain c items a h) ∙ o))

IsOverride-rule :
    (go : Matchers) (r : RuleConfig) → r.override ≡ true → IsOverride (compile_rule go r)
unfolding compile_rule
IsOverride-rule go r o = o

decided :
    (source_id : String) (release : NormalizedRelease) (v : Option (ℕ × RuleConfig)) (idx : ℕ)
    (w : RuleConfig)
    → v ≡ some (idx, w)
    → (verdict source_id release v).1 ≡ some w
unfolding verdict
decided source_id release v idx w e = rw e refl

module _ (go : Matchers) (count : ℕ) (source_id : String) (release : NormalizedRelease) where
  applies_anywhere :
      (idx : ℕ) (c : CompiledRule)
      → applies go count source_id release idx c ≡ applies go count source_id release 0 c
  unfolding applies attempt_of
  applies_anywhere idx c = refl

  -- The first rule that applies is an override.
  abbrev ByOverride : ℕ → List CompiledRule → Type 0
  ByOverride idx items =
      (i : ℕ) × (r : RuleConfig) × (first_applying go count source_id release idx items
        ≡ some (i, r))
      × (r.override ≡ true)
      × ((r.release_id ≟ release.provider_release_id) ≡ true)

  unselected :
      (idx : ℕ) (c : CompiledRule)
      → select_matches go c release ≡ []
      → (attempt_of go count source_id release idx c).matched ≡ false
  unfolding attempt_of
  unselected idx c e = rw e refl

  other_release :
      (c : CompiledRule)
      → IsOverride c
      → (c.rule.release_id ≟ release.provider_release_id) ≡ false
      → select_matches go c release ≡ []
  unfolding select_matches
  other_release c o f = rw (o, f) refl

  -- An override applies to its own release alone.
  override_release :
      (idx : ℕ) (c : CompiledRule)
      → IsOverride c
      → applies go count source_id release idx c ≡ true
      → (c.rule.release_id ≟ release.provider_release_id) ≡ true
  unfolding applies
  override_release idx c o a = elim (Bool-cases (c.rule.release_id ≟ release.provider_release_id)) [
    | inl t ↦ t
    | inr f ↦
        let (_, m) =
          &&_true (c.rule.source ≟ source_id)
            ((attempt_of go count source_id release idx c).matched) a in
        absurd (false≢true (sym (unselected idx c (other_release c o f)) ∙ m))
  ]

  own_release :
      (r : RuleConfig)
      → r.override ≡ true
      → r.release_id ≡ release.provider_release_id
      → has_none (select_matches go (compile_rule go r) release) ≡ false
  unfolding select_matches compile_rule
  own_release r o i = rw (o, i, eq_refl release.provider_release_id) refl

  unguarded :
      (r : RuleConfig)
      → r.guards.min_body_chars ≡ none
      → r.guards.unless_tags ≡ []
      → r.guards.unless_title_patterns ≡ []
      → evaluate_guards go count r.guards (compile_selectors go r) release ≡ []
  unfolding evaluate_guards compile_selectors
  unguarded r m t u = rw (m, t, u) refl

  -- An override without guards applies to its release.
  override_applies :
      (r : RuleConfig)
      → r.override ≡ true
      → r.source ≡ source_id
      → r.release_id ≡ release.provider_release_id
      → r.guards.min_body_chars ≡ none
      → r.guards.unless_tags ≡ []
      → r.guards.unless_title_patterns ≡ []
      → applies go count source_id release 0 (compile_rule go r) ≡ true
  unfolding applies attempt_of compile_rule
  override_applies r o s i m t u =
      rw (s, eq_refl source_id, own_release r o i, unguarded r m t u) refl

  first-ByOverride :
      (c : CompiledRule) (idx : ℕ) (items : List CompiledRule)
      → IsOverride c
      → applies go count source_id release 0 c ≡ true
      → OverridesFirst items
      → In c items
      → ByOverride idx items
  unfolding first_applying
  first-ByOverride c idx [] o a f h = absurd h
  first-ByOverride c idx (d ∷ items) o a (f, fs) h =
      elim (Bool-cases (applies go count source_id release idx d)) [
        | inl t ↦
            (let v = first-IsOverride c d items o f h in
              (idx, d.rule, rw t refl, v, override_release idx d v t))
        | inr n ↦ elim h [
          | inl e ↦ absurd (
              false≢true (
                sym n
                ∙ (applies_anywhere idx d
                    ∙ (ap (applies go count source_id release 0) (sym e) ∙ a))))
          | inr k ↦
              let (i, r, e, v, w) = first-ByOverride c (idx + 1) items o a fs k in
              (i, r, rw n e, v, w)
        ]
      ]

  in_order :
      (rules : List RuleConfig) (r : RuleConfig)
      → In r rules
      → (not (is_empty r.source) && r.source ≟ source_id) ≡ true
      → In (compile_rule go r) (for_source source_id (compile_rule_set go rules))
  unfolding for_source compile_rule_set compile_rule
  in_order rules r h e =
      select-In _ (compile_rule go r) _
        (sort_by-In rule_before (compile_rule go r) (map (compile_rule go) rules)
          (In-map (compile_rule go) r rules h))
        e

  -- However the other rules are written and ordered, a release for which there is an override of its
  -- source without guards, where the source has an id, is routed by an override for that release.
  pub explain-override :
      (rules : List RuleConfig) (r : RuleConfig)
      → In r rules
      → r.override ≡ true
      → r.source ≡ source_id
      → is_empty source_id ≡ false
      → r.release_id ≡ release.provider_release_id
      → r.guards.min_body_chars ≡ none
      → r.guards.unless_tags ≡ []
      → r.guards.unless_title_patterns ≡ []
      → (winner : RuleConfig) × ((explain go count source_id release
            (for_source source_id (compile_rule_set go rules))).rule
          ≡ some winner)
        × (winner.override ≡ true)
        × ((winner.release_id ≟ release.provider_release_id) ≡ true)
  explain-override rules r h o s n i m t u =
      let items : List CompiledRule = for_source source_id (compile_rule_set go rules) in
      let named : (not (is_empty r.source) && r.source ≟ source_id) ≡ true =
        rw (s, n, eq_refl source_id) refl in
      let (idx, w, e, v, x) =
        first-ByOverride (compile_rule go r) 0 items (IsOverride-rule go r o)
          (override_applies r o s i m t u)
          (for_source-OverridesFirst source_id (compile_rule_set go rules)
            (compile_rule_set-OverridesFirst go rules))
          (in_order rules r h named) in
      let (d, _) = explain-first_rule go count source_id release items in
      (w, d ∙ decided source_id release _ idx w e, v, x)
