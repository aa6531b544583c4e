-- ===== src/Delivery/Execute/Saved.antt =====
-- The plan that the executor gets, against the files of saved plans and the catalog in the state it
-- gets it in.
use serial_sync.Base.{
  String, true, false, Option, none, some, List, [], ◌≡◌, ◌⊎◌, All, IfOk, IfSome, Result, ok,
}
use serial_sync.Domain.Plans.{PublishItemResult}
use serial_sync.Delivery.Plan.{DeliveryPlan}
use serial_sync.Delivery.Effects.{Effects, NamedPlan, PendingPublish}
use serial_sync.Delivery.Resume.{Scope, SourceConfig, is_idle}

-- The plan delivers nothing and retires nothing.
pub record IsIdle (plan : DeliveryPlan) : Type 0 where
  pub nothing_retired : plan.retirements ≡ []
  pub nothing_delivered : All (λ (i : PublishItemResult). is_idle i.action ≡ true) plan.items

-- What the files of saved plans and the catalog promise. `IsFile path plan w` says that in `w` the file
-- at the path holds the plan; `IsPending p plan w` says that the catalog has `p` as the target's
-- pending delivery, and that the file which it names holds the plan.
pub record KeepsPlans {W : Type 0} (E : Effects W) (IsFile : String → NamedPlan → W → Type 0)
    (IsPending : PendingPublish → NamedPlan → W → Type 0) : Type 0 where
  -- A file that is written holds the plan.
  pub written :
      (plan : NamedPlan) (w : W)
      → IfOk
          (λ path. IsFile path plan (E.write_delivery_plan plan w).0)
          (E.write_delivery_plan plan w).1
  -- An entry that is saved names its file.
  pub saved :
      (p : PendingPublish) (plan : NamedPlan) (w : W)
      → IsFile p.payload_ref plan w
      → (E.save_pending_publish p w).1 ≡ none
      → IsPending p plan (E.save_pending_publish p w).0
  -- What is read is the plan in the file of the pending entry.
  pub read :
      (p : PendingPublish) (w : W)
      → (E.get_pending_publish w).1 ≡ ok (some p)
      → let there = (E.get_pending_publish w).0 in
        IfOk
          (λ plan. IsPending p plan (E.read_delivery_plan p there).0)
          (E.read_delivery_plan p there).1
  -- A random name changes nothing of it.
  pub named :
      (p : PendingPublish) (plan : NamedPlan) (w : W)
      → IsPending p plan w
      → IsPending p plan (E.new_uuid w).0

-- In the state, the pending delivery has the plan's id, and its file holds a plan of this id and of the
-- same event scope, candidates and maintenance flag.
pub record IsStored {W : Type 0} (IsPending : PendingPublish → NamedPlan → W → Type 0)
    (plan : NamedPlan) (w : W) : Type 0 where
  pub persisted : plan.persisted ≡ true
  pub entry : PendingPublish
  pub stored : NamedPlan
  pub pending : IsPending entry stored w
  pub entry_id : entry.id ≡ plan.id
  pub same_id : stored.id ≡ plan.id
  pub same_scope : stored.event_scope ≡ plan.event_scope
  pub same_candidates : stored.plan.candidates ≡ plan.plan.candidates
  pub same_maintenance : stored.plan.maintenance ≡ plan.plan.maintenance

module _ {W : Type 0} (E : Effects W) (sources : List SourceConfig) (scope : Scope)
    (target_id signature : String) {IsFile : String → NamedPlan → W → Type 0}
    {IsPending : PendingPublish → NamedPlan → W → Type 0}
    (keeps : KeepsPlans E IsFile IsPending) where
  -- The plan of the answer is stored, or there is nothing to recover: no hook to prepare, and no change
  -- to make.
  abbrev IsSaved : W × Result NamedPlan → Type 0
  IsSaved out =
      IfOk (λ plan. IsStored IsPending plan out.0 ⊎ ((E.lifecycle_hook ≡ false) × IsIdle plan.plan))
        out.1

  -- A plan that the catalog has as the pending one.
  abbrev IsFound : W × Result (Option NamedPlan) → Type 0
  IsFound out =
      IfOk (IfSome (λ plan. (p : PendingPublish) × IsPending p plan out.0 × (plan.id ≡ p.id))) out.1
