-- ===== src/Delivery/Cleanup.antt =====
-- `applyRetirements`, internal/app/transitions.go: each retirement of the plan, once its replacements
-- are in place. An error does not stop the loop.
use serial_sync.Base.{
  String, Option, none, some, List, [], ◌∷◌, ◌++◌, ◌⧺◌, ◌≟◌, first, select, contains, Error, errorf,
  error_text,
}
use serial_sync.Base.Stateful.{Step, return, ◌>>=◌}
use serial_sync.Domain.Library.{PublishRecordBundle, PublishStatus}
use serial_sync.Delivery.Retire.{PlanRetirement, retirement_owned_hashes}
use serial_sync.Delivery.Effects.{Effects, NamedPlan}

-- The text of `errors.Join`: each error on a line of its own.
unfoldable pub join_texts : Error → List Error → String
join_texts e [] = error_text e
join_texts e (d ∷ ds) = error_text e ⧺ ("\n" ⧺ join_texts d ds)

-- `errors.Join`: no error, if there is none to join.
unfoldable pub join_errors : List Error → Option Error
unfolding join_texts
join_errors [] = none
join_errors (e ∷ es) = some (errorf (join_texts e es))

module _ {W : Type 0} (E : Effects W) (plan : NamedPlan) (records : List PublishRecordBundle) where
  -- The failures so far, and the write of the superseded record.
  unfoldable pub after_retire :
      PublishRecordBundle → List Error → Option Error → Step W (List Error)
  after_retire old failures (some e) = return (failures ++ e ∷ [])
  after_retire old failures none =
      E.upsert_publish_record (record (old.record_) { status = PublishStatus.superseded })
      >>= (λ failure. return (elim failure [ none ↦ failures | some e ↦ failures ++ e ∷ [] ]))

  -- A retirement whose record is gone from the snapshot is passed over.
  unfoldable pub retire_found :
      PlanRetirement → List Error → Option PublishRecordBundle → Step W (List Error)
  unfolding after_retire
  retire_found r failures none = return failures
  retire_found r failures (some old) =
      let related = select (λ c. contains r.related c.artifact.id) plan.plan.candidates in
      E.retire old plan.plan.candidates related (retirement_owned_hashes records old)
        plan.event_scope
      >>= after_retire old failures

  unfoldable pub retire_each : List PlanRetirement → List Error → Step W (List Error)
  unfolding retire_found
  retire_each [] failures = return failures
  retire_each (r ∷ rs) failures =
      retire_found r failures (first (λ b. b.record_.id ≟ r.record_id) records) >>= retire_each rs

  unfoldable pub apply_retirements : Step W (Option Error)
  unfolding retire_each join_errors
  apply_retirements =
      retire_each plan.plan.retirements [] >>= (λ failures. return (join_errors failures))
