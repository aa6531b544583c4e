-- ===== src/Config.antt =====
-- internal/config/{config,authoring,ruleset}.go: the authored settings that routing, ordering and
-- volume planning read. A number of a validated configuration is not negative, so `int` is ℕ.
pub mod Series
pub mod Rules
pub mod RuleSet
pub mod RuleOrder
