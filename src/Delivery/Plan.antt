-- ===== src/Delivery/Plan.antt =====
-- `planDelivery`: the order from the adapter, then the candidates, then the retirements.
use serial_sync.Base.{
  String, Bool, List, ◌++◌, if◌then◌else◌, Result, ok, err, ◌>>=◌, IfOk, ◌≡◌, refl,
}
use serial_sync.Domain.Library.{PublishCandidate, PublishRecordBundle, VolumeEdition}
use serial_sync.Domain.Plans.{PublishItemResult}
use serial_sync.Publish.Target.{Target, DeliveryIdentity, Dependencies}
use serial_sync.Delivery.Candidate.{nothing_planned, plan_candidates}
use serial_sync.Delivery.Retire.{PlanRetirement, nothing_retired, retire_records, artifact_ids}

-- `librarySnapshot`
pub record Snapshot : Type 0 where
  pub records : List PublishRecordBundle
  pub volumes : List VolumeEdition

-- `deliveryPlan`. The plan's id, event scope and payload path are random names, which no decision of
-- the planner reads; they are left out, and so are the target's settings.
pub record DeliveryPlan : Type 0 where
  pub maintenance : Bool
  pub candidates : List PublishCandidate
  pub items : List PublishItemResult
  pub ordered : List String
  pub dependencies : Dependencies
  pub identities : List (String × DeliveryIdentity)
  pub retirements : List PlanRetirement
  pub blocked : List String

-- The two loops, once the adapter has given the order.
unfoldable pub plan_ordered :
    Bool
    → Target
    → List PublishCandidate
    → Snapshot
    → List PublishCandidate
    → Dependencies
    → DeliveryPlan
unfolding plan_candidates retire_records
plan_ordered rebuild pt candidates snapshot ordered dependencies =
    let p = plan_candidates pt snapshot.records candidates nothing_planned in
    let r =
      (if pt.capabilities.retires
        then retire_records pt candidates snapshot.records snapshot.volumes p.desired p.covered
            snapshot.records nothing_retired
        else nothing_retired) in
    record {
      maintenance = rebuild;
      candidates = candidates;
      items = p.items ++ r.items;
      ordered = artifact_ids ordered;
      dependencies = dependencies;
      identities = p.identities;
      retirements = r.retirements;
      blocked = p.blocked ++ r.blocked;
    }

unfoldable pub plan_delivery :
    Bool → Target → List PublishCandidate → Snapshot → Result DeliveryPlan
unfolding plan_ordered
plan_delivery rebuild pt candidates snapshot = do
  found ← pt.reorder candidates snapshot.records snapshot.volumes
  ok (plan_ordered rebuild pt candidates snapshot found.0 found.1)

-- A plan is of the candidates that it was asked for.
pub plan_delivery-candidates :
    (rebuild : Bool) (pt : Target) (candidates : List PublishCandidate) (snapshot : Snapshot)
    → IfOk
        (λ (plan : DeliveryPlan). plan.candidates ≡ candidates)
        (plan_delivery rebuild pt candidates snapshot)
unfolding plan_delivery plan_ordered
plan_delivery-candidates rebuild pt candidates snapshot =
    reordered (pt.reorder candidates snapshot.records snapshot.volumes)
  where
    reordered :
        (found : Result (List PublishCandidate × Dependencies))
        → IfOk
            (λ (plan : DeliveryPlan). plan.candidates ≡ candidates)
            (found >>= (λ f. ok (plan_ordered rebuild pt candidates snapshot f.0 f.1)))
    reordered (err e) = tt
    reordered (ok f) = refl
