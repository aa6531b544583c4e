-- ===== src/Domain/Explanation.antt =====
-- internal/domain/authoring.go: what routing records about each rule that it tried.
use serial_sync.Base.{String, Bool, List}

pub record SelectorMatch : Type 0 where
  pub id : String
  pub kind : String
  pub value : String
  pub attachment : String

pub record GuardResult : Type 0 where
  pub field_ : String
  pub passed : Bool
  pub detail : String

pub record RuleAttempt : Type 0 where
  pub reason : String
  pub input : String
  pub series : String
  pub selectors : List SelectorMatch
  pub guards : List GuardResult
  pub matched : Bool
  pub selected : Bool

pub record DecisionConflict : Type 0 where
  pub label_series : String
  pub title_series : String
  pub label_input : String
  pub title_input : String

pub record DecisionExplanation : Type 0 where
  pub conflicts : List DecisionConflict
  pub held_reasons : List String
  pub attempts : List RuleAttempt
  pub overlaps : List String
