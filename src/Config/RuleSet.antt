-- ===== src/Config/RuleSet.antt =====
-- internal/config/ruleset.go: the compiled rules, in the order in which routing tries them.
use serial_sync.Base.{
  String, Bool, not, ◌&&◌, ◌||◌, none, List, [], ◌∷◌, ◌≟◌, is_empty, ltb_int, if◌then◌else◌, any,
  select, map, contains, sort_by, Matchers,
}
use serial_sync.Config.Rules.{RuleConfig, CompiledSelectors, CompiledRule}

-- `compileSelectors`: an expression that does not compile keeps its place as a nil.
unfoldable pub compile_selectors : Matchers → RuleConfig → CompiledSelectors
compile_selectors go rule = record {
  title = map go.regexp rule.title_patterns;
  attachments = map go.regexp rule.attachment_patterns;
  unless_title = map go.regexp rule.guards.unless_title_patterns;
  legacy_title = if rule.match_type ≟ "title_regex" then go.regexp rule.match_value else none;
  legacy_attachment =
      if rule.match_type ≟ "attachment_filename_regex" then go.regexp rule.match_value else none;
}

unfoldable pub compile_rule : Matchers → RuleConfig → CompiledRule
unfolding compile_selectors
compile_rule go rule = record { rule = rule; selectors = compile_selectors go rule }

-- Overrides first, then by priority.
unfoldable pub rule_before : CompiledRule → CompiledRule → Bool
rule_before a b =
    if (a.rule.override && not b.rule.override) || (not a.rule.override && b.rule.override)
    then a.rule.override
    else ltb_int a.rule.priority b.rule.priority

-- `CompileRuleSet`, of the rules in the order in which it adds them: legacy rules, the inputs of the
-- series, reviews and overrides, with the defaults applied.
unfoldable pub compile_rule_set : Matchers → List RuleConfig → List CompiledRule
unfolding rule_before
compile_rule_set go rules = sort_by rule_before (map (compile_rule go) rules)

-- `ForSource`: a rule without a source is indexed under none.
unfoldable pub for_source : String → List CompiledRule → List CompiledRule
for_source source_id items =
    select (λ c. not (is_empty c.rule.source) && c.rule.source ≟ source_id) items

-- `Rules`
unfoldable pub authored_rules : List CompiledRule → List RuleConfig
authored_rules items = map CompiledRule.rule items

-- `SeriesExists`: the series is the target of a rule.
unfoldable pub series_exists : String → List CompiledRule → Bool
series_exists series_id items =
    any
      (λ c.
        (not (is_empty c.rule.series_id) && c.rule.series_id ≟ series_id)
        || (not (is_empty c.rule.track_key) && c.rule.track_key ≟ series_id))
      items

-- The loop of `SourcesRoutingTo`, with the sources seen so far.
unfoldable pub sources_from : String → List String → List CompiledRule → List String
unfolding contains
sources_from series_id seen [] = []
sources_from series_id seen (c ∷ items) =
    let skipped =
      is_empty c.rule.source
      || contains seen c.rule.source
      || not (c.rule.series_id ≟ series_id || c.rule.track_key ≟ series_id) in
    let rest = sources_from series_id (if skipped then seen else c.rule.source ∷ seen) items in
    if skipped then rest else c.rule.source ∷ rest

-- `SourcesRoutingTo`
unfoldable pub sources_routing_to : String → List CompiledRule → List String
unfolding sources_from
sources_routing_to series_id items = sources_from series_id [] items
