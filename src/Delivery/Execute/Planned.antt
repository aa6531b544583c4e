-- ===== src/Delivery/Execute/Planned.antt =====
-- The plan of a delivery and its retirements keep what the operations keep.
use serial_sync.Base.{
  String, Bool, true, Option, none, some, List, [], ◌∷◌, if_cases, if◌then◌else◌, All, IfOk, IfSome,
  Error, Result, ok, err, ◌>>=◌, first,
}
use serial_sync.Base.Stateful.{
  Holds, Keeps, Holds-return, Holds-observe, Holds-when, Holds-bind, Keeps-bind,
}
use serial_sync.Domain.Library.{PublishCandidate, PublishRecordBundle}
use serial_sync.Publish.Target.{Target, Dependencies}
use serial_sync.Delivery.Retire.{PlanRetirement}
use serial_sync.Delivery.Plan.{Snapshot, plan_ordered, plan_delivery}
use serial_sync.Delivery.Effects.{Effects, LifecycleEvent, PendingPublish, NamedPlan, run_lifecycle}
use serial_sync.Delivery.Resume.{
  Scope, SourceConfig, has_changed, leaves_scope, different_settings, excluded_scope, check_pending,
  read_pending, pending_delivery, name_plan, plan_named, after_save, after_write, save_plan,
  plan_fresh, plan_fresh_unless, resume, resume_or_plan, delivery_plan,
}
use serial_sync.Delivery.Cleanup.{after_retire, retire_found, retire_each, apply_retirements}
use serial_sync.Delivery.Execute.Respects.{Respects}

-- The plan's candidates.
abbrev pub PlansFor : (PublishCandidate → Type 0) → NamedPlan → Type 0
PlansFor C plan = All C plan.plan.candidates

IfSome-first :
    {A : Type 0} (R : A → Type 0) (test : A → Bool) (xs : List A)
    → All R xs
    → IfSome R (first test xs)
IfSome-first R test [] h = tt
IfSome-first R test (x ∷ xs) (h, hs) =
    if_cases (IfSome R) (test x) (some x) (first test xs) (λ _. h) (λ _. IfSome-first R test xs hs)

module _ {W : Type 0} {E : Effects W} {P : W → Type 0} {C : PublishCandidate → Type 0}
    {R : PublishRecordBundle → Type 0} (law : Respects E P C R) where
  pub run_lifecycle-Keeps : (event : LifecycleEvent) → Keeps P (run_lifecycle E event)
  unfolding run_lifecycle
  run_lifecycle-Keeps event =
      Holds-when P _ _ _ _ (λ _. law.quiet.hook event) (λ _. Holds-return P _ _ tt)

  module _ (plan : NamedPlan) (records : List PublishRecordBundle) (rs : All R records) where
    after_retire-Keeps :
        (old : PublishRecordBundle) (failures : List Error) (failure : Option Error)
        → Keeps P (after_retire E plan records old failures failure)
    unfolding after_retire
    after_retire-Keeps old failures (some e) = Holds-return P _ _ tt
    after_retire-Keeps old failures none =
        Keeps-bind P _ _ _ (law.quiet.upsert _) (λ failure. Holds-return P _ _ tt)

    retire_found-Keeps :
        (r : PlanRetirement) (failures : List Error) (found : Option PublishRecordBundle)
        → IfSome R found
        → Keeps P (retire_found E plan records r failures found)
    unfolding retire_found
    retire_found-Keeps r failures none h = Holds-return P _ _ tt
    retire_found-Keeps r failures (some old) h =
        Keeps-bind P _ _ _ (law.retirement old _ _ records _ h rs)
          (λ failure. after_retire-Keeps old failures failure)

    retire_each-Keeps :
        (retirements : List PlanRetirement) (failures : List Error)
        → Keeps P (retire_each E plan records retirements failures)
    unfolding retire_each
    retire_each-Keeps [] failures = Holds-return P _ _ tt
    retire_each-Keeps (r ∷ rest) failures =
        Keeps-bind P _ _ _ (retire_found-Keeps r failures _ (IfSome-first R _ records rs))
          (λ failures'. retire_each-Keeps rest failures')

    pub apply_retirements-Keeps : Keeps P (apply_retirements E plan records)
    unfolding apply_retirements
    apply_retirements-Keeps =
        Keeps-bind P _ _ _ (retire_each-Keeps plan.plan.retirements [])
          (λ failures. Holds-return P _ _ tt)

  module _ (sources : List SourceConfig) (scope : Scope) (target_id signature : String) where
    check_pending-PlansFor :
        (pending : PendingPublish) (found : Result NamedPlan)
        → IfOk (PlansFor C) found
        → IfOk
            (IfSome (PlansFor C))
            (check_pending E sources scope target_id signature pending found)
    unfolding check_pending
    check_pending-PlansFor pending (err e) h = tt
    check_pending-PlansFor pending (ok saved) h =
        if_cases (IfOk (IfSome (PlansFor C)))
          (has_changed E sources scope target_id signature pending saved)
          (err (different_settings target_id))
          (if leaves_scope E sources scope target_id signature saved
            then err (excluded_scope target_id)
            else ok (some saved))
          (λ _. tt)
          (λ _.
            if_cases (IfOk (IfSome (PlansFor C)))
              (leaves_scope E sources scope target_id signature saved)
              (err (excluded_scope target_id)) (ok (some saved)) (λ _. tt) (λ _. h))

    read_pending-Holds :
        (found : Result (Option PendingPublish))
        → Holds P
            (IfOk (IfSome (PlansFor C)))
            (read_pending E sources scope target_id signature found)
    unfolding read_pending
    read_pending-Holds (err e) = Holds-return P _ _ tt
    read_pending-Holds (ok none) = Holds-return P _ _ tt
    read_pending-Holds (ok (some pending)) =
        Holds-bind P _ _ _ _ (law.quiet.read_plan pending)
          (λ saved h. Holds-return P _ _ (check_pending-PlansFor pending saved h))

    pending_delivery-Holds :
        Holds P (IfOk (IfSome (PlansFor C))) (pending_delivery E sources scope target_id signature)
    unfolding pending_delivery
    pending_delivery-Holds = Keeps-bind P _ _ _ law.quiet.get_pending read_pending-Holds

    name_plan-PlansFor :
        (uuid : String) (pt : Target) (candidates : List PublishCandidate) (snapshot : Snapshot)
        → All C candidates
        → IfOk (PlansFor C) (
            name_plan E sources scope target_id signature uuid
              (plan_delivery scope.rebuild pt candidates snapshot))
    unfolding plan_delivery name_plan plan_ordered
    name_plan-PlansFor uuid pt candidates snapshot h =
        named (pt.reorder candidates snapshot.records snapshot.volumes)
      where
        named :
            (found : Result (List PublishCandidate × Dependencies))
            → IfOk (PlansFor C) (
                name_plan E sources scope target_id signature uuid
                  (do x ← found; ok (plan_ordered scope.rebuild pt candidates snapshot x.0 x.1)))
        named (err e) = tt
        named (ok x) = h

    pub plan_named-Holds :
        (candidates : List PublishCandidate) (snapshot : Snapshot)
        → All C candidates
        → Holds P
            (IfOk (PlansFor C))
            (plan_named E sources scope target_id signature candidates snapshot)
    unfolding plan_named
    plan_named-Holds candidates snapshot h = Keeps-bind P _ _ _ law.quiet.uuid (λ uuid.
        Holds-observe P _ _ (λ w p. name_plan-PlansFor uuid (E.target_of w) candidates snapshot h))

    after_save-Holds :
        (plan : NamedPlan) (failure : Option Error)
        → PlansFor C plan
        → Holds P (IfOk (PlansFor C)) (after_save E sources scope target_id signature plan failure)
    unfolding after_save
    after_save-Holds plan (some e) h = Holds-return P _ _ tt
    after_save-Holds plan none h = Holds-return P _ _ h

    after_write-Holds :
        (plan : NamedPlan) (path : Result String)
        → PlansFor C plan
        → Holds P (IfOk (PlansFor C)) (after_write E sources scope target_id signature plan path)
    unfolding after_write
    after_write-Holds plan (err e) h = Holds-return P _ _ tt
    after_write-Holds plan (ok path) h =
        Keeps-bind P _ _ _ (law.quiet.save_pending _)
          (λ failure. after_save-Holds (record plan { payload_ref = path }) failure h)

    save_plan-Holds :
        (plan : Result NamedPlan)
        → IfOk (PlansFor C) plan
        → Holds P (IfOk (PlansFor C)) (save_plan E sources scope target_id signature plan)
    unfolding save_plan
    save_plan-Holds (err e) h = Holds-return P _ _ tt
    save_plan-Holds (ok plan) h =
        Holds-when P _ _ _ _ (λ _. Holds-return P _ _ h)
          (λ _.
            Keeps-bind P _ _ _ (law.quiet.write_plan _)
              (λ path. after_write-Holds (record plan { persisted = true }) path h))

    module _ (candidates : List PublishCandidate) (hs : All C candidates)
        (snapshot : Snapshot) where
      plan_fresh-Holds :
          Holds P
            (IfOk (PlansFor C))
            (plan_fresh E sources scope target_id signature candidates snapshot)
      unfolding plan_fresh
      plan_fresh-Holds =
          Holds-bind P _ _ _ _ (plan_named-Holds candidates snapshot hs) save_plan-Holds

      plan_fresh_unless-Holds :
          (failure : Option Error)
          → Holds P
              (IfOk (PlansFor C))
              (plan_fresh_unless E sources scope target_id signature candidates snapshot failure)
      unfolding plan_fresh_unless
      plan_fresh_unless-Holds (some e) = Holds-return P _ _ tt
      plan_fresh_unless-Holds none = plan_fresh-Holds

      resume-Holds :
          (saved : NamedPlan) (rebuilt : Result NamedPlan)
          → IfOk (PlansFor C) rebuilt
          → Holds P
              (IfOk (PlansFor C))
              (resume E sources scope target_id signature candidates snapshot saved rebuilt)
      unfolding resume
      resume-Holds saved (err e) h =
          Holds-when P _ _ _ _
            (λ _. Keeps-bind P _ _ _ (law.quiet.complete_pending _) plan_fresh_unless-Holds)
            (λ _. Holds-return P _ _ tt)
      resume-Holds saved (ok rebuilt) h = Holds-return P _ _ h

      resume_or_plan-Holds :
          (found : Result (Option NamedPlan))
          → IfOk (IfSome (PlansFor C)) found
          → Holds P
              (IfOk (PlansFor C))
              (resume_or_plan E sources scope target_id signature candidates snapshot found)
      unfolding resume_or_plan
      resume_or_plan-Holds (err e) h = Holds-return P _ _ tt
      resume_or_plan-Holds (ok none) h = plan_fresh-Holds
      resume_or_plan-Holds (ok (some saved)) h =
          Holds-bind P _ _ _ _ (plan_named-Holds saved.plan.candidates snapshot h)
            (λ rebuilt q. resume-Holds saved rebuilt q)

      pub delivery_plan-Holds :
          Holds P
            (IfOk (PlansFor C))
            (delivery_plan E sources scope target_id signature candidates snapshot)
      unfolding delivery_plan
      delivery_plan-Holds =
          Holds-bind P _ _ _ _ pending_delivery-Holds (λ found q. resume_or_plan-Holds found q)
