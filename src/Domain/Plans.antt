-- ===== src/Domain/Plans.antt =====
-- internal/domain/types.go: the items of a delivery plan and the volume plan of a series.
use serial_sync.Base.{ℕ, String, Bool, List}

-- The action words of a plan or of an execution.
pub data Action : Type 0 where
  add replace repair unchanged held blocked retire : Action
  planned skipped published failed notification_failed : Action

pub record PublishItemResult : Type 0 where
  pub conditional : Bool
  pub artifact_id : String
  pub target_id : String
  pub target_kind : String
  pub target_ref : String
  pub action : Action
  pub message : String

pub record VolumePlan : Type 0 where
  pub present : List ℕ
  pub intentional_gaps : List ℕ
  pub series_id : String
  pub group_id : String
  pub first : ℕ
  pub last : ℕ
  pub missing : List ℕ
  pub status : String
  pub reason : String
  pub filename : String

pub record PublishResult : Type 0 where
  pub volumes : List VolumePlan
  pub run_id : String
  pub published : ℕ
  pub skipped : ℕ
  pub failed : ℕ
  pub dry_run : Bool
  pub artifacts : List String
  pub items : List PublishItemResult
