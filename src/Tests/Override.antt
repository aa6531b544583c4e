-- ===== src/Tests/Override.antt =====
-- An override, added last and with the largest priority number, goes before the other rules.
use serial_sync.Base.{sort_by, pos, negsuc, true, some, List, [], ◌∷◌, ◌≡◌, refl, inl, inr, ◌≟◌}
use serial_sync.Config.Rules.{RuleConfig}
use serial_sync.Config.RuleSet.{compile_rule, compile_rule_set, for_source, sources_routing_to}
use serial_sync.Classify.Decide.{explain}
use serial_sync.Classify.Override.{explain-override}
use serial_sync.Tests.Classify.{go, post, rule_to}

abbrev pinned : RuleConfig
pinned = record (rule_to "side") {
  override = true;
  release_id = "p1";
  priority = pos 10;
  match_type = "fallback";
}

abbrev by_tag : RuleConfig
by_tag = record (rule_to "story") { tags = "story" ∷ [] }

abbrev authored : List RuleConfig
authored =
    by_tag ∷ record (rule_to "other") { match_type = "fallback"; priority = negsuc 4 } ∷ pinned ∷ []

routed :
    (explain go 10 "src" post (for_source "src" (compile_rule_set go authored))).decision.series_id
    ≡ "side"
unfolding explain for_source compile_rule_set sort_by compile_rule
routed = refl

both_sources : sources_routing_to "story" (compile_rule_set go authored) ≡ "src" ∷ []
unfolding sources_routing_to compile_rule_set sort_by compile_rule
both_sources = refl

explain-override_example :
    (winner : RuleConfig) × ((explain go 10 "src" post
        (for_source "src" (compile_rule_set go authored))).rule
      ≡ some winner)
    × (winner.override ≡ true)
    × ((winner.release_id ≟ post.provider_release_id) ≡ true)
explain-override_example =
    explain-override go 10 "src" post authored pinned (inr (inr (inl refl))) refl refl refl refl
      refl refl refl
