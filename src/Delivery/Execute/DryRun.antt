-- ===== src/Delivery/Execute/DryRun.antt =====
-- A dry run goes through the same planner and the same loop, and does nothing.
use serial_sync.Base.{ℕ, true, Option, none, some, List, [], ◌∷◌, ◌≡◌, refl, Error, Result, ok, err}
use serial_sync.Base.Stateful.{
  Step, Holds, Keeps, Holds-return, Holds-observe, Holds-when, Holds-bind, Keeps-bind,
}
use serial_sync.Domain.Library.{PublishCandidate, PublishRecordBundle}
use serial_sync.Domain.Plans.{PublishItemResult}
use serial_sync.Publish.Target.{Target, DeliveryIdentity}
use serial_sync.Delivery.Plan.{Snapshot}
use serial_sync.Delivery.Effects.{Effects, NamedPlan}
use serial_sync.Delivery.Outcome.{Outcome, no_outcome}
use serial_sync.Delivery.Deliver.{
  Progress, deliver_now, deliver_planned, deliver_identified, deliver_one, unless_aborted,
  deliver_all,
}
use serial_sync.Delivery.Resume.{plan_named}
use serial_sync.Delivery.Execute.{
  Run, Attempt, again, stop, abort, after_deliveries, prepare, after_prepare, after_plan, attempt,
  notify, after_first, execute_delivery,
}

-- The error of a dry run's step: there is none.
abbrev GoesOn : {A : Type 0} → A × Option Error → Type 0
GoesOn x = x.1 ≡ none

module _ {W : Type 0} (E : Effects W) (P : W → Type 0) (pt : Target) (plan : NamedPlan)
    (records : List PublishRecordBundle) where
  module _ (c : PublishCandidate) where
    dry_now :
        (i : DeliveryIdentity) (p : Progress)
        → Holds P GoesOn (deliver_now E pt true plan records c i p)
    unfolding deliver_now
    dry_now i p = Holds-when P _ _ _ _ (λ _. Holds-return P _ _ refl) (λ h. absurd (cc))

    dry_planned :
        (i : DeliveryIdentity) (p : Progress) (item : Option PublishItemResult)
        → Holds P GoesOn (deliver_planned E pt true plan records c i p item)
    unfolding deliver_planned
    dry_planned i p none = dry_now i p
    dry_planned i p (some item) =
        Holds-when P _ _ _ _ (λ _. Holds-return P _ _ refl)
          (λ _. Holds-when P _ _ _ _ (λ _. Holds-return P _ _ refl) (λ _. dry_now i p))

    dry_identified :
        (p : Progress) (found : DeliveryIdentity × Option Error)
        → Holds P GoesOn (deliver_identified E pt true plan records c p found)
    unfolding deliver_identified
    dry_identified p (i, none) = dry_planned i p _
    dry_identified p (i, some e) = Holds-when P _ _ _ _ (λ _. dry_planned i p _) (λ h. absurd (cc))

    dry_one : (p : Progress) → Holds P GoesOn (deliver_one E pt true plan records c p)
    unfolding deliver_one
    dry_one p =
        Holds-when P _ _ _ _ (λ _. Holds-return P _ _ refl)
          (λ _.
            Holds-when P _ _ _ _ (λ _. Holds-return P _ _ refl)
              (λ _.
                Keeps-bind P _ _ _ (Holds-observe P _ _ (λ w h. tt))
                  (λ found. dry_identified p found)))

  dry_rest :
      (rest : Progress → Step W (Progress × Option Error)) (x : Progress × Option Error)
      → ((p : Progress) → Holds P GoesOn (rest p))
      → GoesOn x
      → Holds P GoesOn (unless_aborted E pt true plan records rest x)
  unfolding unless_aborted
  dry_rest rest (p, none) r h = r p
  dry_rest rest (p, some e) r h = absurd (cc)

  dry_all :
      (cs : List PublishCandidate) (p : Progress)
      → Holds P GoesOn (deliver_all E pt true plan records cs p)
  unfolding deliver_all
  dry_all [] p = Holds-return P _ _ refl
  dry_all (c ∷ cs) p =
      Holds-bind P _ _ _ _ (dry_one c p) (λ x h. dry_rest _ x (λ q. dry_all cs q) h)

-- An attempt that is the last one.
abbrev IsStop : Attempt → Type 0
IsStop a = elim a [ stop o ↦ Unit | again o ↦ ⊥ | abort o e ↦ ⊥ ]

module _ {W : Type 0} (E : Effects W) (P : W → Type 0) (run : Run) (dry : run.dry ≡ true) where
  dry_deliveries :
      (start : ℕ) (plan : NamedPlan) (snapshot : Snapshot) (x : Progress × Option Error)
      → GoesOn x
      → Holds P IsStop (after_deliveries E run start plan snapshot x)
  unfolding after_deliveries
  dry_deliveries start plan snapshot (p, some e) h = absurd (cc)
  dry_deliveries start plan snapshot (p, none) h =
      Holds-when P _ _ _ _ (λ _. Holds-return P _ _ tt) (λ k. absurd (cc))

  dry_prepare :
      (plan : NamedPlan) (snapshot : Snapshot)
      → Holds P (λ failure. failure ≡ none) (prepare E run plan snapshot)
  unfolding prepare
  dry_prepare plan snapshot = Holds-when P _ _ _ _ (λ _. Holds-return P _ _ refl) (λ k. absurd (cc))

  dry_prepared :
      (start : ℕ) (plan : NamedPlan) (snapshot : Snapshot) (o : Outcome) (failure : Option Error)
      → failure ≡ none
      → Holds P IsStop (after_prepare E run start plan snapshot o failure)
  unfolding after_prepare
  dry_prepared start plan snapshot o (some e) h = absurd (cc)
  dry_prepared start plan snapshot o none h =
      Holds-bind P _ _ _ _ (rw dry (dry_all E P run.pt plan snapshot.records _ _))
        (λ x g. dry_deliveries start plan snapshot x g)

  dry_plan :
      (snapshot : Snapshot) (o : Outcome) (plan : Result NamedPlan)
      → Holds P IsStop (after_plan E run snapshot o plan)
  unfolding after_plan
  dry_plan snapshot o (err e) = Holds-return P _ _ tt
  dry_plan snapshot o (ok plan) =
      Holds-bind P _ _ _ _ (dry_prepare plan snapshot)
        (λ failure h. dry_prepared o.failed plan snapshot _ failure h)

  dry_attempt :
      (snapshot : Snapshot) (o : Outcome)
      → Keeps P E.new_uuid
      → Holds P IsStop (attempt E run snapshot o)
  unfolding attempt plan_named
  dry_attempt snapshot o uuid =
      Keeps-bind P _ _ _
        (Holds-when P _ _ _ _ (λ _. Keeps-bind P _ _ _ uuid (λ u. Holds-observe P _ _ (λ w h. tt)))
          (λ k. absurd (cc)))
        (λ plan. dry_plan snapshot o plan)

  dry_notify : (o : Outcome) → Holds P GoesOn (notify E run o)
  unfolding notify
  dry_notify o = Holds-when P _ _ _ _ (λ _. Holds-return P _ _ refl) (λ k. absurd (cc))

  dry_first : (a : Attempt) → IsStop a → Holds P GoesOn (after_first E run a)
  unfolding after_first
  dry_first (abort o e) h = absurd h
  dry_first (stop o) h = dry_notify o
  dry_first (again o) h = absurd h

  -- A dry run is never aborted, and keeps every property of the state that the drawing of a random
  -- name keeps: of all the operations it uses no other.
  pub dry_run-Keeps :
      (snapshot : Snapshot) → Keeps P E.new_uuid → Holds P GoesOn (execute_delivery E run snapshot)
  unfolding execute_delivery
  dry_run-Keeps snapshot uuid =
      Holds-bind P _ _ _ _ (dry_attempt snapshot no_outcome uuid) (λ a h. dry_first a h)
