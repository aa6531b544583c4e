-- ===== src/Delivery/Execute/Attempted.antt =====
-- An attempt, and with it the whole execution, keeps what the operations keep.
use serial_sync.Base.{
  ℕ, Option, none, some, List, refl, if_cases, All, IfOk, Error, Result, ok, err,
}
use serial_sync.Base.Stateful.{Holds, Keeps, Holds-return, Holds-when, Holds-bind, Keeps-bind}
use serial_sync.Domain.Library.{PublishCandidate, PublishRecordBundle, VolumeEdition}
use serial_sync.Domain.Plans.{notification_failed}
use serial_sync.Delivery.Plan.{Snapshot}
use serial_sync.Delivery.Effects.{Effects, NamedPlan}
use serial_sync.Delivery.Outcome.{Outcome, no_outcome, item_at}
use serial_sync.Delivery.Deliver.{Progress}
use serial_sync.Delivery.Execute.{
  Run, Attempt, same_delivery, again, stop, abort, fail, fail_if, after_complete, complete,
  after_bookkeeping, after_cleanup, after_deliveries, after_prepare, prepare, after_plan, attempt,
  attempt_with, attempt_read, notify, after_last, after_first, execute_delivery,
}
use serial_sync.Delivery.Execute.Respects.{Respects, Closed}
use serial_sync.Delivery.Execute.Delivered.{in_order-All, deliver_all-Holds}
use serial_sync.Delivery.Execute.Planned.{
  PlansFor, run_lifecycle-Keeps, apply_retirements-Keeps, plan_named-Holds, delivery_plan-Holds,
}

-- The outcome of an attempt, and that of the execution.
abbrev EndsIn : (Outcome → Type 0) → Attempt → Type 0
EndsIn Q a = elim a [ again o ↦ Q o | stop o ↦ Q o | abort o e ↦ Q o ]

module _ {W : Type 0} {E : Effects W} {P : W → Type 0} {C : PublishCandidate → Type 0}
    {R : PublishRecordBundle → Type 0} (law : Respects E P C R) (run : Run) {Q : Outcome → Type 0}
    (closed : Closed run.dry Q) where
  after_complete-Keeps :
      (plan : NamedPlan) (failure : Option Error) → Keeps P (after_complete E run plan failure)
  unfolding after_complete
  after_complete-Keeps plan (some e) = Holds-return P _ _ tt
  after_complete-Keeps plan none =
      Keeps-bind P _ _ _ (law.quiet.compaction plan) (λ logged. Holds-return P _ _ tt)

  complete-Keeps : (plan : NamedPlan) → Keeps P (complete E run plan)
  unfolding complete
  complete-Keeps plan =
      Holds-when P _ _ _ _
        (λ _.
          Keeps-bind P _ _ _ (law.quiet.complete_pending _)
            (λ failure. after_complete-Keeps plan failure))
        (λ _. Holds-return P _ _ tt)

  after_bookkeeping-EndsIn :
      (plan : NamedPlan) (o : Outcome) (failure : Option Error)
      → Q o
      → EndsIn Q (after_bookkeeping E run plan o failure)
  unfolding after_bookkeeping
  after_bookkeeping-EndsIn plan o (some e) q = q
  after_bookkeeping-EndsIn plan o none q =
      if_cases (EndsIn Q)
        (same_delivery run.marshal run.marshal_all plan.plan.candidates run.selected) (stop o)
        (again o) (λ _. q) (λ _. q)

  after_cleanup-Holds :
      (start : ℕ) (plan : NamedPlan) (o : Outcome) (failure : Option Error)
      → Q o
      → Holds P (EndsIn Q) (after_cleanup E run start plan o failure)
  unfolding after_cleanup fail item_at
  after_cleanup-Holds start plan o (some e) q = Holds-return P _ _ (closed.on_failed _ o refl q)
  after_cleanup-Holds start plan o none q =
      Keeps-bind P _ _ _ (complete-Keeps plan)
        (λ failure. Holds-return P _ _ (after_bookkeeping-EndsIn plan o failure q))

  module _ (plan : NamedPlan) (snapshot : Snapshot) (rs : All R snapshot.records) where
    after_deliveries-Holds :
        (start : ℕ) (x : Progress × Option Error)
        → Q x.0.outcome
        → Holds P (EndsIn Q) (after_deliveries E run start plan snapshot x)
    unfolding after_deliveries
    after_deliveries-Holds start (p, some e) q = Holds-return P _ _ q
    after_deliveries-Holds start (p, none) q =
        Holds-when P _ _ _ _ (λ _. Holds-return P _ _ q)
          (λ _.
            Holds-when P _ _ _ _ (λ _. Holds-return P _ _ q)
              (λ _.
                Keeps-bind P _ _ _ (apply_retirements-Keeps law plan snapshot.records rs)
                  (λ failure. after_cleanup-Holds start plan p.outcome failure q)))

    after_prepare-Holds :
        (start : ℕ) (o : Outcome) (failure : Option Error)
        → PlansFor C plan
        → Q o
        → Holds P (EndsIn Q) (after_prepare E run start plan snapshot o failure)
    unfolding after_prepare fail item_at
    after_prepare-Holds start o (some e) h q = Holds-return P _ _ (closed.on_failed _ o refl q)
    after_prepare-Holds start o none h q =
        Holds-bind P _ _ _ _
          (deliver_all-Holds law closed run.pt plan snapshot.records rs _ _
            (in_order-All C plan.plan.candidates plan.plan.ordered h) q)
          (λ x qx. after_deliveries-Holds start x qx)

    prepare-Keeps : Keeps P (prepare E run plan snapshot)
    unfolding prepare
    prepare-Keeps =
        Holds-when P _ _ _ _ (λ _. Holds-return P _ _ tt) (λ _. run_lifecycle-Keeps law _)

  module _ (chosen : All C run.selected) where
    after_plan-Holds :
        (snapshot : Snapshot) (o : Outcome) (plan : Result NamedPlan)
        → All R snapshot.records
        → IfOk (PlansFor C) plan
        → Q o
        → Holds P (EndsIn Q) (after_plan E run snapshot o plan)
    unfolding after_plan fail item_at
    after_plan-Holds snapshot o (err e) rs h q = Holds-return P _ _ (closed.on_failed _ o refl q)
    after_plan-Holds snapshot o (ok plan) rs h q =
        Keeps-bind P _ _ _ (prepare-Keeps plan snapshot rs) (λ failure.
          after_prepare-Holds plan snapshot rs o.failed _ failure h
            (closed.on_blocked plan.plan.items o q))

    attempt-Holds :
        (snapshot : Snapshot) (o : Outcome)
        → All R snapshot.records
        → Q o
        → Holds P (EndsIn Q) (attempt E run snapshot o)
    unfolding attempt
    attempt-Holds snapshot o rs q =
        Holds-bind P _ _ _ _
          (Holds-when P _ _ _ _
            (λ _.
              plan_named-Holds law run.sources run.scope run.pt.target_id run.signature run.selected
                snapshot chosen)
            (λ _.
              delivery_plan-Holds law run.sources run.scope run.pt.target_id run.signature
                run.selected chosen snapshot))
          (λ plan h. after_plan-Holds snapshot o plan rs h q)

    attempt_with-Holds :
        (o : Outcome) (records : List PublishRecordBundle) (volumes : Result (List VolumeEdition))
        → All R records
        → Q o
        → Holds P (EndsIn Q) (attempt_with E run o records volumes)
    unfolding attempt_with
    attempt_with-Holds o records (err e) rs q = Holds-return P _ _ q
    attempt_with-Holds o records (ok volumes) rs q = attempt-Holds _ o rs q

    attempt_read-Holds :
        (o : Outcome) (records : Result (List PublishRecordBundle))
        → IfOk (All R) records
        → Q o
        → Holds P (EndsIn Q) (attempt_read E run o records)
    unfolding attempt_read
    attempt_read-Holds o (err e) rs q = Holds-return P _ _ q
    attempt_read-Holds o (ok records) rs q =
        Keeps-bind P _ _ _ law.quiet.list_editions
          (λ volumes. attempt_with-Holds o records volumes rs q)

    fail_if-closed :
        (failure : Option Error) (o : Outcome)
        → Q o
        → Q (fail_if E run notification_failed failure o)
    unfolding fail_if fail item_at
    fail_if-closed none o q = q
    fail_if-closed (some e) o q = closed.on_failed _ o refl q

    notify-Holds : (o : Outcome) → Q o → Holds P (λ x. Q x.0) (notify E run o)
    unfolding notify
    notify-Holds o q =
        Holds-when P _ _ _ _ (λ _. Holds-return P _ _ q)
          (λ _.
            Keeps-bind P _ _ _ (run_lifecycle-Keeps law _)
              (λ failure. Holds-return P _ _ (fail_if-closed failure o q)))

    after_last-Holds : (a : Attempt) → EndsIn Q a → Holds P (λ x. Q x.0) (after_last E run a)
    unfolding after_last
    after_last-Holds (abort o e) q = Holds-return P _ _ q
    after_last-Holds (stop o) q = notify-Holds o q
    after_last-Holds (again o) q = notify-Holds o q

    after_first-Holds : (a : Attempt) → EndsIn Q a → Holds P (λ x. Q x.0) (after_first E run a)
    unfolding after_first
    after_first-Holds (abort o e) q = Holds-return P _ _ q
    after_first-Holds (stop o) q = notify-Holds o q
    after_first-Holds (again o) q =
        Holds-bind P _ _ _ _
          (Holds-bind P _ _ _ _ law.quiet.list_records
            (λ records rs. attempt_read-Holds o records rs q))
          (λ a qa. after_last-Holds a qa)

    pub execute_delivery-Holds :
        (snapshot : Snapshot)
        → All R snapshot.records
        → Q no_outcome
        → Holds P (λ x. Q x.0) (execute_delivery E run snapshot)
    unfolding execute_delivery
    execute_delivery-Holds snapshot rs q =
        Holds-bind P _ _ _ _ (attempt-Holds snapshot no_outcome rs q)
          (λ a qa. after_first-Holds a qa)
