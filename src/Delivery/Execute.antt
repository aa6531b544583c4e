-- ===== src/Delivery/Execute.antt =====
-- `Service.executeDelivery`, internal/app/delivery.go: the plan, the lifecycle hook, the deliveries
-- and the retirements, tried once more where a resumed plan was not what is wanted now.
pub mod Respects
pub mod Delivered
pub mod Planned
pub mod Attempted
pub mod Accounted
pub mod DryRun
pub mod Gated
pub mod Live
pub mod Saved
use serial_sync.Base.{
  ℕ, String, Bool, true, false, not, ◌&&◌, ◌==◌, Option, none, some, List, [], ◌∷◌, ◌≟◌, select,
  ltb, if◌then◌else◌, Error, error_text, Result, ok, err, sort_strings,
}
use serial_sync.Base.Stateful.{Step, return, observe, ◌>>=◌, when◌then◌else◌}
use serial_sync.Domain.Library.{PublishCandidate, PublishRecordBundle, VolumeEdition, is_published}
use serial_sync.Domain.Plans.{Action, blocked, failed, notification_failed}
use serial_sync.Publish.Target.{Target}
use serial_sync.Delivery.Plan.{Snapshot}
use serial_sync.Delivery.Effects.{Effects, LifecycleEvent, NamedPlan, run_lifecycle}
use serial_sync.Delivery.Outcome.{Outcome, no_outcome, item_at, add_failed, add_blocked}
use serial_sync.Delivery.Deliver.{Progress, in_order, deliver_all}
use serial_sync.Delivery.Resume.{Scope, SourceConfig, plan_named, delivery_plan}
use serial_sync.Delivery.Cleanup.{apply_retirements}

-- How an attempt ends: another one follows, none follows, or the run is aborted.
pub data Attempt : Type 0 where
  again : Outcome → Attempt
  stop : Outcome → Attempt
  abort : Outcome → Error → Attempt

-- `sameDelivery`: the sorted texts of the candidates agree. `marshal` stands for `json.Marshal` of
-- what is read of a candidate, `marshal_all` for that of the sorted texts.
unfoldable pub texts_of : (PublishCandidate → String) → List PublishCandidate → List String
texts_of marshal [] = []
texts_of marshal (c ∷ cs) = marshal c ∷ texts_of marshal cs

unfoldable pub same_delivery :
    (PublishCandidate → String)
    → (List String → String)
    → List PublishCandidate
    → List PublishCandidate
    → Bool
unfolding texts_of sort_strings
same_delivery marshal marshal_all left right =
    marshal_all (sort_strings (texts_of marshal left))
    ≟ marshal_all (sort_strings (texts_of marshal right))

-- What a run gives to a delivery: its settings, the adapter, whose id, kind and capabilities no step
-- changes, the texts that `json.Marshal` makes for `sameDelivery`, and the selected candidates.
pub record Run : Type 0 where
  pub run_id : String
  pub sources : List SourceConfig
  pub scope : Scope
  pub pt : Target
  pub signature : String
  pub marshal : PublishCandidate → String
  pub marshal_all : List String → String
  pub dry : Bool
  pub selected : List PublishCandidate

module _ {W : Type 0} (E : Effects W) (run : Run) where
  -- `failed("", action, err.Error())`
  unfoldable pub fail : Action → Error → Outcome → Outcome
  unfolding add_failed item_at
  fail action e = add_failed (item_at run.pt "" "" action (error_text e))

  unfoldable pub fail_if : Action → Option Error → Outcome → Outcome
  unfolding fail
  fail_if action none o = o
  fail_if action (some e) o = fail action e o

  -- Is the bookkeeping of a persisted plan through? An error of the compaction is only logged.
  unfoldable pub after_complete : NamedPlan → Option Error → Step W (Option Error)
  after_complete plan (some e) = return (some e)
  after_complete plan none = E.compact plan >>= (λ logged. return none)

  unfoldable pub complete : NamedPlan → Step W (Option Error)
  unfolding after_complete
  complete plan =
      when plan.persisted
      then E.complete_pending_publish plan.id >>= after_complete plan
      else return none

  unfoldable pub after_bookkeeping : NamedPlan → Outcome → Option Error → Attempt
  unfolding same_delivery
  after_bookkeeping plan o (some e) = abort o e
  after_bookkeeping plan o none =
      if same_delivery run.marshal run.marshal_all plan.plan.candidates run.selected
      then stop o
      else again o

  unfoldable pub after_cleanup : ℕ → NamedPlan → Outcome → Option Error → Step W Attempt
  unfolding fail complete after_bookkeeping
  after_cleanup start plan o (some e) = return (stop (fail failed e o))
  after_cleanup start plan o none =
      complete plan >>= (λ failure. return (after_bookkeeping plan o failure))

  -- Nothing is retired once a candidate has failed.
  unfoldable pub after_deliveries :
      ℕ → NamedPlan → Snapshot → Progress × Option Error → Step W Attempt
  unfolding apply_retirements after_cleanup
  after_deliveries start plan snapshot (p, some e) = return (abort p.outcome e)
  after_deliveries start plan snapshot (p, none) =
      when run.dry
      then return (stop p.outcome)
      else when ltb start p.outcome.failed
      then return (stop p.outcome)
      else apply_retirements E plan snapshot.records >>= after_cleanup start plan p.outcome

  unfoldable pub after_prepare : ℕ → NamedPlan → Snapshot → Outcome → Option Error → Step W Attempt
  unfolding fail deliver_all after_deliveries in_order
  after_prepare start plan snapshot o (some e) = return (stop (fail failed e o))
  after_prepare start plan snapshot o none =
      deliver_all E run.pt run.dry plan snapshot.records
        (in_order plan.plan.candidates plan.plan.ordered) (record { outcome = o; delivered = [] })
      >>= after_deliveries start plan snapshot

  unfoldable pub prepare_event : NamedPlan → Snapshot → LifecycleEvent
  unfolding in_order
  prepare_event plan snapshot = record {
    action = "prepare";
    run_id = run.run_id;
    target_id = run.pt.target_id;
    delivery_id = plan.id;
    maintenance = plan.plan.maintenance;
    succeeded = false;
    candidates = in_order plan.plan.candidates plan.plan.ordered;
    previous =
        if plan.plan.maintenance && E.lifecycle_hook
        then some (select (λ r. is_published r.record_.status) snapshot.records)
        else none;
  }

  unfoldable pub prepare : NamedPlan → Snapshot → Step W (Option Error)
  unfolding prepare_event run_lifecycle
  prepare plan snapshot =
      when run.dry then return none else run_lifecycle E (prepare_event plan snapshot)

  unfoldable pub after_plan : Snapshot → Outcome → Result NamedPlan → Step W Attempt
  unfolding fail prepare after_prepare add_blocked
  after_plan snapshot o (err e) = return (stop (fail blocked e o))
  after_plan snapshot o (ok plan) =
      prepare plan snapshot
      >>= after_prepare o.failed plan snapshot (add_blocked run.dry plan.plan.items o)

  unfoldable pub attempt : Snapshot → Outcome → Step W Attempt
  unfolding after_plan plan_named delivery_plan
  attempt snapshot o =
      (when run.dry
        then plan_named E run.sources run.scope run.pt.target_id run.signature run.selected snapshot
        else delivery_plan E run.sources run.scope run.pt.target_id run.signature run.selected
            snapshot)
      >>= after_plan snapshot o

  -- The second attempt reads the records and the editions again.
  unfoldable pub attempt_with :
      Outcome → List PublishRecordBundle → Result (List VolumeEdition) → Step W Attempt
  unfolding attempt
  attempt_with o records (err e) = return (abort o e)
  attempt_with o records (ok volumes) = attempt (record { records = records; volumes = volumes }) o

  unfoldable pub attempt_read : Outcome → Result (List PublishRecordBundle) → Step W Attempt
  unfolding attempt_with
  attempt_read o (err e) = return (abort o e)
  attempt_read o (ok records) = E.list_volume_editions >>= attempt_with o records

  unfoldable pub complete_event : Outcome → LifecycleEvent
  complete_event o = record {
    action = "complete";
    run_id = run.run_id;
    target_id = run.pt.target_id;
    delivery_id = "";
    maintenance = run.scope.rebuild;
    succeeded = o.failed == 0;
    candidates = [];
    previous = none;
  }

  -- The last event, unless the run is a dry one.
  unfoldable pub notify : Outcome → Step W (Outcome × Option Error)
  unfolding fail_if complete_event run_lifecycle
  notify o =
      when run.dry
      then return (o, none)
      else run_lifecycle E (complete_event o)
        >>= (λ failure. return (fail_if notification_failed failure o, none))

  unfoldable pub after_last : Attempt → Step W (Outcome × Option Error)
  unfolding notify
  after_last (abort o e) = return (o, some e)
  after_last (stop o) = notify o
  after_last (again o) = notify o

  unfoldable pub after_first : Attempt → Step W (Outcome × Option Error)
  unfolding notify attempt_read after_last
  after_first (abort o e) = return (o, some e)
  after_first (stop o) = notify o
  after_first (again o) = E.list_publish_records >>= attempt_read o >>= after_last

  -- `executeDelivery`: the outcome, and the error that aborts the run.
  unfoldable pub execute_delivery : Snapshot → Step W (Outcome × Option Error)
  unfolding attempt after_first
  execute_delivery snapshot = attempt snapshot no_outcome >>= after_first
