-- ===== src/Config/Rules.antt =====
-- internal/config/{config,authoring,ruleset}.go: a routing rule and its compiled selectors.
use serial_sync.Base.{ℕ, ℤ, String, Bool, Option, List, Pattern}

pub record CollectionSelector : Type 0 where
  pub id : String
  pub name : String

pub record Guards : Type 0 where
  pub hold_candidates : Bool
  pub min_body_chars : Option ℕ
  pub unless_tags : List String
  pub unless_title_patterns : List String

pub record RuleConfig : Type 0 where
  pub collections : List CollectionSelector
  pub tags : List String
  pub title_patterns : List String
  pub attachment_patterns : List String
  pub guards : Guards
  pub override : Bool
  pub release_id : String
  pub reason : String
  pub book_id : String
  pub series_id : String
  pub source : String
  pub priority : ℤ
  pub match_type : String
  pub match_value : String
  pub track_key : String
  pub track_name : String
  pub canonical_author : String
  pub release_role : String
  pub content_strategy : String
  pub output_format : String
  pub preface_mode : String
  pub attachment_glob : List String
  pub attachment_priority : List String
  pub anthology_mode : Option Bool

pub record CompiledSelectors : Type 0 where
  pub title : List (Option Pattern)
  pub attachments : List (Option Pattern)
  pub unless_title : List (Option Pattern)
  pub legacy_title : Option Pattern
  pub legacy_attachment : Option Pattern

pub record CompiledRule : Type 0 where
  pub rule : RuleConfig
  pub selectors : CompiledSelectors
