-- ===== src/Delivery/Resume.antt =====
-- `Service.deliveryPlan` and `pendingDelivery`, internal/app/transitions.go: a saved plan that is not
-- through is resumed, and a new plan that changes something is saved before anything is delivered.
use serial_sync.Base.{
  String, Bool, true, false, not, ◌&&◌, ◌||◌, Option, none, some, List, [], ◌∷◌, ◌⧺◌, ◌≟◌, any,
  is_empty, if◌then◌else◌, Error, errorf, error_text, is_cyclic_replacement, Result, ok, err,
}
use serial_sync.Base.Stateful.{Step, return, observe, ◌>>=◌, when◌then◌else◌}
use serial_sync.Domain.Library.{PublishCandidate}
use serial_sync.Domain.Plans.{Action, held, unchanged}
use serial_sync.Delivery.Plan.{Snapshot, DeliveryPlan, plan_delivery}
use serial_sync.Delivery.Effects.{Effects, PendingPublish, NamedPlan}

-- `deliveryScope`
pub record Scope : Type 0 where
  pub source_id : String
  pub series_id : String
  pub rebuild : Bool

-- `config.SourceConfig`, as far as a scope reads it.
pub record SourceConfig : Type 0 where
  pub id : String
  pub enabled : Bool

-- The first source with that id is enabled.
unfoldable pub is_enabled : List SourceConfig → String → Bool
is_enabled [] id = false
is_enabled (s ∷ sources) id = if s.id ≟ id then s.enabled else is_enabled sources id

-- `sourceInScope`, internal/app/service.go
unfoldable pub source_in_scope : List SourceConfig → String → String → Bool → Bool
unfolding is_enabled
source_in_scope sources id filter rebuild =
    if not (is_empty filter) && not (id ≟ filter)
    then false
    else if not rebuild
    then true
    else is_enabled sources id

-- The candidate is of the scope's sources and series.
unfoldable pub in_scope : List SourceConfig → Scope → PublishCandidate → Bool
unfolding source_in_scope
in_scope sources scope c =
    source_in_scope sources c.source.id scope.source_id scope.rebuild
    && not (not (is_empty scope.series_id) && not (c.track.track_key ≟ scope.series_id))

-- The action changes nothing.
abbrev pub is_idle : Action → Bool
is_idle a = elim a [ held ↦ true | unchanged ↦ true | _ ↦ false ]

-- Some item of the plan delivers, holds up or retires something.
unfoldable pub needs_recovery : Bool → DeliveryPlan → Bool
needs_recovery hook plan =
    elim plan.retirements [ [] ↦ false | r ∷ rs ↦ true ]
    || hook
    || any (λ item. not (is_idle item.action)) plan.items

abbrev pub different_settings : String → Error
different_settings target_id = errorf (
    "target "
    ⧺ (target_id
        ⧺ " has a pending delivery with different settings; restore its settings and retry first"))

abbrev pub excluded_scope : String → Error
excluded_scope target_id = errorf (
    "target "
    ⧺ (target_id
        ⧺ " pending delivery requires excluded sources or series; retry its original scope first"))

-- `signature` is the `targetSignature` of the target's settings.
module _ {W : Type 0} (E : Effects W) (sources : List SourceConfig) (scope : Scope)
    (target_id signature : String) where
  -- The saved plan is not the pending one, or its target's settings are not the present ones.
  unfoldable pub has_changed : PendingPublish → NamedPlan → Bool
  has_changed pending saved = not (saved.id ≟ pending.id) || not (saved.signature ≟ signature)

  unfoldable pub leaves_scope : NamedPlan → Bool
  unfolding in_scope
  leaves_scope saved = any (λ c. not (in_scope sources scope c)) saved.plan.candidates

  unfoldable pub check_pending : PendingPublish → Result NamedPlan → Result (Option NamedPlan)
  unfolding has_changed leaves_scope
  check_pending pending (err e) = err (
      errorf (
        "target "
        ⧺ (target_id ⧺ (" pending delivery " ⧺ (pending.payload_ref ⧺ (": " ⧺ error_text e))))))
  check_pending pending (ok saved) =
      if has_changed pending saved
      then err (different_settings target_id)
      else if leaves_scope saved
      then err (excluded_scope target_id)
      else ok (some saved)

  unfoldable pub read_pending : Result (Option PendingPublish) → Step W (Result (Option NamedPlan))
  unfolding check_pending
  read_pending (err e) = return (err e)
  read_pending (ok none) = return (ok none)
  read_pending (ok (some pending)) =
      E.read_delivery_plan pending >>= (λ saved. return (check_pending pending saved))

  -- `pendingDelivery`
  unfoldable pub pending_delivery : Step W (Result (Option NamedPlan))
  unfolding read_pending
  pending_delivery = E.get_pending_publish >>= read_pending

  -- What `planDelivery` returns, under a new random name.
  unfoldable pub name_plan : String → Result DeliveryPlan → Result NamedPlan
  name_plan uuid (err e) = err e
  name_plan uuid (ok plan) = ok (record {
    persisted = false;
    payload_ref = "";
    id = "delivery_" ⧺ uuid;
    event_scope = "delivery_" ⧺ uuid;
    signature = signature;
    plan = plan;
  })

  unfoldable pub plan_named : List PublishCandidate → Snapshot → Step W (Result NamedPlan)
  unfolding name_plan
  plan_named candidates snapshot = E.new_uuid >>= (λ uuid.
      observe
        (λ w. name_plan uuid (plan_delivery scope.rebuild (E.target_of w) candidates snapshot)))

  unfoldable pub after_save : NamedPlan → Option Error → Step W (Result NamedPlan)
  after_save plan (some e) = return (err e)
  after_save plan none = return (ok plan)

  unfoldable pub after_write : NamedPlan → Result String → Step W (Result NamedPlan)
  unfolding after_save
  after_write plan (err e) = return (err e)
  after_write plan (ok path) =
      E.save_pending_publish (record { id = plan.id; target_id = target_id; payload_ref = path })
      >>= after_save (record plan { payload_ref = path })

  -- A plan that needs recovery is saved.
  unfoldable pub save_plan : Result NamedPlan → Step W (Result NamedPlan)
  unfolding needs_recovery after_write
  save_plan (err e) = return (err e)
  save_plan (ok plan) =
      let persisted = record plan { persisted = true } in
      when not (needs_recovery E.lifecycle_hook plan.plan)
      then return (ok plan)
      else E.write_delivery_plan persisted >>= after_write persisted

  module _ (candidates : List PublishCandidate) (snapshot : Snapshot) where
    unfoldable pub plan_fresh : Step W (Result NamedPlan)
    unfolding plan_named save_plan
    plan_fresh = plan_named candidates snapshot >>= save_plan

    unfoldable pub plan_fresh_unless : Option Error → Step W (Result NamedPlan)
    unfolding plan_fresh
    plan_fresh_unless (some e) = return (err e)
    plan_fresh_unless none = plan_fresh

    -- The saved plan's candidates, planned again: a cycle drops the saved plan, and otherwise its
    -- names go on.
    unfoldable pub resume : NamedPlan → Result NamedPlan → Step W (Result NamedPlan)
    unfolding plan_fresh_unless
    resume saved (err e) =
        when is_cyclic_replacement e
        then E.complete_pending_publish saved.id >>= plan_fresh_unless
        else return (err e)
    resume saved (ok rebuilt) = return (
        ok (record {
          persisted = true;
          payload_ref = saved.payload_ref;
          id = saved.id;
          event_scope = saved.event_scope;
          signature = rebuilt.signature;
          plan = record (rebuilt.plan) { maintenance = saved.plan.maintenance };
        }))

    unfoldable pub resume_or_plan : Result (Option NamedPlan) → Step W (Result NamedPlan)
    unfolding plan_named resume plan_fresh
    resume_or_plan (err e) = return (err e)
    resume_or_plan (ok none) = plan_fresh
    resume_or_plan (ok (some saved)) = plan_named saved.plan.candidates snapshot >>= resume saved

    -- `deliveryPlan`
    unfoldable pub delivery_plan : Step W (Result NamedPlan)
    unfolding pending_delivery resume_or_plan
    delivery_plan = pending_delivery >>= resume_or_plan
