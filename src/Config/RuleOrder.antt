-- ===== src/Config/RuleOrder.antt =====
-- internal/config/ruleset.go: the compiled rules have the overrides first.
use serial_sync.Base.{
  String, Bool, true, false, List, [], ◌∷◌, ◌≡◌, sym, ◌⊎◌, inl, inr, ◌∙◌, if_cases, Bool-cases, map,
  All, false≢true, select, insert, insert-All, sort_by_keeps, arith, Matchers,
}
use serial_sync.Config.Rules.{RuleConfig, CompiledRule}
use serial_sync.Config.RuleSet.{compile_rule, rule_before, compile_rule_set, for_source}

abbrev pub IsOverride : CompiledRule → Type 0
IsOverride c = c.rule.override ≡ true

abbrev pub IsPlain : CompiledRule → Type 0
IsPlain c = c.rule.override ≡ false

-- No override stands behind a rule that is none.
abbrev pub OverridesFirst : List CompiledRule → Type 0
OverridesFirst [] = Unit
OverridesFirst (x ∷ xs) = (IsOverride x ⊎ All IsPlain xs) × OverridesFirst xs

IsPlain-after : (x y : CompiledRule) → rule_before x y ≡ true → IsPlain x → IsPlain y
unfolding rule_before
IsPlain-after x y h p = ground arith

IsPlain-before : (x y : CompiledRule) → rule_before x y ≡ false → IsPlain y → IsPlain x
unfolding rule_before
IsPlain-before x y h p = ground arith

put_before :
    (x y : CompiledRule) (ys : List CompiledRule)
    → rule_before x y ≡ true
    → IsOverride y ⊎ All IsPlain ys
    → IsOverride x ⊎ All IsPlain (y ∷ ys)
put_before x y ys b h = elim (Bool-cases x.rule.override) [
  | inl t ↦ inl t
  | inr f ↦ elim h [
    | inl o ↦ absurd (false≢true (sym (IsPlain-after x y b f) ∙ o))
    | inr a ↦ inr (IsPlain-after x y b f, a)
  ]
]

put_behind :
    (x y : CompiledRule) (ys : List CompiledRule)
    → rule_before x y ≡ false
    → IsOverride y ⊎ All IsPlain ys
    → IsOverride y ⊎ All IsPlain (insert rule_before x ys)
put_behind x y ys b (inl o) = inl o
put_behind x y ys b (inr a) = elim (Bool-cases y.rule.override) [
  | inl t ↦ inl t
  | inr f ↦ inr (insert-All rule_before IsPlain x ys (IsPlain-before x y b f) a)
]

insert-OverridesFirst :
    (x : CompiledRule) (ys : List CompiledRule)
    → OverridesFirst ys
    → OverridesFirst (insert rule_before x ys)
unfolding insert
insert-OverridesFirst x [] h = (inr tt, tt)
insert-OverridesFirst x (y ∷ ys) (h, hs) =
    if_cases OverridesFirst (rule_before x y) _ _ (λ b. (put_before x y ys b h, (h, hs)))
      (λ b. (put_behind x y ys b h, insert-OverridesFirst x ys hs))

pub compile_rule_set-OverridesFirst :
    (go : Matchers) (rules : List RuleConfig) → OverridesFirst (compile_rule_set go rules)
unfolding compile_rule_set
compile_rule_set-OverridesFirst go rules =
    sort_by_keeps rule_before OverridesFirst insert-OverridesFirst tt (map (compile_rule go) rules)

All-select :
    (p : CompiledRule → Bool) (xs : List CompiledRule) → All IsPlain xs → All IsPlain (select p xs)
All-select p [] h = tt
All-select p (x ∷ xs) (h, hs) =
    if_cases (All IsPlain) (p x) _ _ (λ _. (h, All-select p xs hs)) (λ _. All-select p xs hs)

select-OverridesFirst :
    (p : CompiledRule → Bool) (xs : List CompiledRule)
    → OverridesFirst xs
    → OverridesFirst (select p xs)
select-OverridesFirst p [] h = tt
select-OverridesFirst p (x ∷ xs) (h, hs) =
    let rest : OverridesFirst (select p xs) = select-OverridesFirst p xs hs in
    let head : IsOverride x ⊎ All IsPlain (select p xs) = elim h [
      | inl o ↦ inl o
      | inr a ↦ inr (All-select p xs a)
    ] in
    if_cases OverridesFirst (p x) _ _ (λ _. (head, rest)) (λ _. rest)

pub for_source-OverridesFirst :
    (source_id : String) (items : List CompiledRule)
    → OverridesFirst items
    → OverridesFirst (for_source source_id items)
unfolding for_source
for_source-OverridesFirst source_id items h = select-OverridesFirst _ items h
