-- ===== src/Delivery/Outcome.antt =====
-- `deliveryOutcome`, internal/app/delivery.go: what the delivery to one target has done.
use serial_sync.Base.{ℕ, ◌+◌, String, Bool, false, List, [], ◌∷◌, ◌++◌, if◌then◌else◌}
use serial_sync.Domain.Plans.{Action, PublishItemResult, PublishResult}
use serial_sync.Publish.Target.{Target}
use serial_sync.Delivery.Items.{is_blocked}

pub record Outcome : Type 0 where
  pub items : List PublishItemResult
  pub artifacts : List String
  pub published : ℕ
  pub skipped : ℕ
  pub failed : ℕ

abbrev pub no_outcome : Outcome
no_outcome = record { items = []; artifacts = []; published = 0; skipped = 0; failed = 0 }

-- `fold`: the outcome of one target goes to the result of the run.
unfoldable pub fold : Outcome → PublishResult → PublishResult
fold o result = record result {
  items = result.items ++ o.items;
  artifacts = result.artifacts ++ o.artifacts;
  published = result.published + o.published;
  skipped = result.skipped + o.skipped;
  failed = result.failed + o.failed;
}

-- An item of this target, which is not conditional.
unfoldable pub item_at : Target → String → String → Action → String → PublishItemResult
item_at pt artifact_id ref action message = record {
  conditional = false;
  artifact_id = artifact_id;
  target_id = pt.target_id;
  target_kind = pt.kind;
  target_ref = ref;
  action = action;
  message = message;
}

-- `outcome.Items = append(outcome.Items, item); outcome.Failed++`
unfoldable pub add_failed : PublishItemResult → Outcome → Outcome
add_failed item o = record o { items = o.items ++ item ∷ []; failed = o.failed + 1 }

-- `outcome.Skipped++` and the item
unfoldable pub add_skipped : PublishItemResult → Outcome → Outcome
add_skipped item o = record o { items = o.items ++ item ∷ []; skipped = o.skipped + 1 }

-- `outcome.Published++`, the artifact and the item
unfoldable pub add_published : PublishItemResult → Outcome → Outcome
add_published item o = record o {
  items = o.items ++ item ∷ [];
  artifacts = o.artifacts ++ item.artifact_id ∷ [];
  published = o.published + 1;
}

-- The plan's own blocked items, each of which fails a run that is not a dry one.
unfoldable pub add_blocked : Bool → List PublishItemResult → Outcome → Outcome
add_blocked dry [] o = o
add_blocked dry (item ∷ items) o = add_blocked dry items (
    if is_blocked item.action
    then record o { items = o.items ++ item ∷ []; failed = if dry then o.failed else o.failed + 1 }
    else o)
