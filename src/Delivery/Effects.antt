-- ===== src/Delivery/Effects.antt =====
-- What the executor of a delivery asks of the adapter, the catalog, the saved plans, the lifecycle
-- hook, the clock and the random names: `publish.Target`'s Deliver and Retire, the repository's
-- operations, `deliveryFiles`, and `RunLifecycle` of internal/publish/lifecycle.go.
use serial_sync.Base.{ℕ, String, Bool, Option, none, List, if◌then◌else◌, Error, Result}
use serial_sync.Base.Stateful.{Step, return, when◌then◌else◌}
use serial_sync.Domain.Library.{PublishCandidate, PublishRecord, PublishRecordBundle, VolumeEdition}
use serial_sync.Publish.Target.{Target, DeliveryIdentity}
use serial_sync.Delivery.Plan.{DeliveryPlan}

-- `LifecycleEvent`. Its version is set by `RunLifecycle`.
pub record LifecycleEvent : Type 0 where
  pub action : String
  pub run_id : String
  pub target_id : String
  pub delivery_id : String
  pub maintenance : Bool
  pub succeeded : Bool
  pub candidates : List PublishCandidate
  pub previous : Option (List PublishRecordBundle)

-- `domain.PendingPublish`
pub record PendingPublish : Type 0 where
  pub id : String
  pub target_id : String
  pub payload_ref : String

-- `deliveryPlan`, with the names that a delivery keeps over its retries. `signature` is the
-- `targetSignature` of the settings in the plan, which is all that is read of them.
pub record NamedPlan : Type 0 where
  pub persisted : Bool
  pub payload_ref : String
  pub id : String
  pub event_scope : String
  pub signature : String
  pub plan : DeliveryPlan

-- The operations on a state `W`, which holds the files, the catalog and all else that they read. An
-- operation that returns only an error answers `none` when it is through.
pub record Effects (W : Type 0) : Type 0 where
  -- The adapter on the files as they are now.
  pub target_of : W → Target
  -- `len(target.LifecycleCommand) > 0`
  pub lifecycle_hook : Bool
  -- The hook's process, with the event on its standard input.
  pub run_hook : LifecycleEvent → Step W (Option Error)
  -- `uuid.NewString()`
  pub new_uuid : Step W String
  -- `time.Now().UTC()`
  pub now : Step W ℕ
  pub publishing_record : PublishCandidate → DeliveryIdentity → Step W (Option PublishRecord)
  pub deliver :
      String → PublishCandidate → DeliveryIdentity → List String → Step W (Result PublishRecord)
  pub retire :
      PublishRecordBundle
      → List PublishCandidate
      → List PublishCandidate
      → List String
      → String
      → Step W (Option Error)
  pub upsert_publish_record : PublishRecord → Step W (Option Error)
  -- Of this target.
  pub list_publish_records : Step W (Result (List PublishRecordBundle))
  pub list_volume_editions : Step W (Result (List VolumeEdition))
  -- Of this target.
  pub get_pending_publish : Step W (Result (Option PendingPublish))
  pub save_pending_publish : PendingPublish → Step W (Option Error)
  pub complete_pending_publish : String → Step W (Option Error)
  pub read_delivery_plan : PendingPublish → Step W (Result NamedPlan)
  pub write_delivery_plan : NamedPlan → Step W (Result String)
  pub compact : NamedPlan → Step W (Option Error)

-- `RunLifecycle`: without a command there is nothing to do.
unfoldable pub run_lifecycle : {W : Type 0} → Effects W → LifecycleEvent → Step W (Option Error)
run_lifecycle E event = when E.lifecycle_hook then E.run_hook event else return none
