-- ===== src/Delivery/Deliver.antt =====
-- The executor's loop over the plan's order, internal/app/delivery.go: each candidate is delivered
-- behind its dependencies, and what became of it is recorded.
mod Lookup
mod One
unfoldable pub use Lookup.*
unfoldable pub use One.*
use serial_sync.Base.{
  ℕ, String, Bool, true, false, not, ◌&&◌, ◌||◌, Option, none, some, List, [], ◌∷◌, ◌++◌, ◌⧺◌, ◌≟◌,
  all, contains, if◌then◌else◌, Error, error_text, Result, ok, err,
}
use serial_sync.Base.Stateful.{Step, return, observe, ◌>>=◌, when◌then◌else◌}
use serial_sync.Domain.Library.{PublishCandidate, PublishRecord, PublishRecordBundle, PublishStatus}
use serial_sync.Domain.Plans.{
  Action, unchanged, held, blocked, retire, planned, skipped, published, failed, PublishItemResult,
}
use serial_sync.Publish.Target.{Target, DeliveryIdentity, depends_on, owned_hashes_at}
use serial_sync.Publish.Filesystem.Order.{by_id}
use serial_sync.Delivery.Items.{is_blocked}
use serial_sync.Delivery.Effects.{Effects, NamedPlan}
use serial_sync.Delivery.Outcome.{Outcome, item_at, add_failed, add_skipped, add_published}

-- The outcome so far, and the artifacts of this plan that are in place.
pub record Progress : Type 0 where
  pub outcome : Outcome
  pub delivered : List String

abbrev pub waiting_for_others : String
waiting_for_others = "waiting for other replacement files before overwriting the old volume"

module _ {W : Type 0} (E : Effects W) where
  -- `pt` gives the target's id, its kind and its capabilities, which no step changes.
  module _ (pt : Target) (dry : Bool) (plan : NamedPlan) (records : List PublishRecordBundle) where
    -- The ledger entry of a failure, by a target that wrote none before.
    unfoldable pub failed_record :
        PublishCandidate → DeliveryIdentity → Error → String → ℕ → PublishRecord
    failed_record c i e uuid at = record {
      filename = "";
      id = "pub_" ⧺ uuid;
      artifact_id = c.artifact.id;
      target_id = pt.target_id;
      target_kind = pt.kind;
      target_ref = i.ref;
      publish_hash = i.publish_hash;
      published_at = at;
      status = PublishStatus.failed;
      message = error_text e;
    }

    -- An error of the write is dropped.
    unfoldable pub write_failure : PublishCandidate → DeliveryIdentity → Error → Step W Unit
    unfolding failed_record
    write_failure c i e =
        when pt.capabilities.pending_record
        then return tt
        else E.new_uuid >>= (λ uuid. E.now >>= (λ at.
          E.upsert_publish_record (failed_record c i e uuid at) >>= (λ dropped. return tt)))

    unfoldable pub published_item : PublishCandidate → PublishRecord → PublishItemResult
    published_item c r = record {
      conditional = false;
      artifact_id = c.artifact.id;
      target_id = pt.target_id;
      target_kind = r.target_kind;
      target_ref = r.target_ref;
      action = published;
      message = r.message;
    }

    -- A record that cannot be written ends the run.
    unfoldable pub after_record :
        PublishCandidate
        → PublishRecord
        → Progress
        → Option Error
        → Step W (Progress × Option Error)
    unfolding published_item add_published
    after_record c r p (some e) = return (p, some e)
    after_record c r p none = return (
      record {
        outcome = add_published (published_item c r) p.outcome;
        delivered = c.artifact.id ∷ p.delivered;
      },
      none,
    )

    unfoldable pub after_delivery :
        PublishCandidate
        → DeliveryIdentity
        → Progress
        → Result PublishRecord
        → Step W (Progress × Option Error)
    unfolding write_failure after_record add_failed item_at
    after_delivery c i p (err e) = write_failure c i e >>= (λ written. return (
      record p {
        outcome = add_failed (item_at pt c.artifact.id i.ref failed (error_text e)) p.outcome;
      },
      none,
    ))
    after_delivery c i p (ok r) =
        E.upsert_publish_record r >>= (λ failure. after_record c r p failure)

    unfoldable pub deliver_now :
        PublishCandidate → DeliveryIdentity → Progress → Step W (Progress × Option Error)
    unfolding deliver_candidate after_delivery add_published item_at
    deliver_now c i p =
        when dry
        then return (
          record {
            outcome = add_published (item_at pt c.artifact.id i.ref planned "") p.outcome;
            delivered = c.artifact.id ∷ p.delivered;
          },
          none,
        )
        else deliver_candidate E plan.event_scope c i records >>= (λ r. after_delivery c i p r)

    -- What the plan says of the candidate, once it has an identity. `none` is the zero item.
    unfoldable pub deliver_planned :
        PublishCandidate
        → DeliveryIdentity
        → Progress
        → Option PublishItemResult
        → Step W (Progress × Option Error)
    unfolding deliver_now add_skipped item_at
    deliver_planned c i p none = deliver_now c i p
    deliver_planned c i p (some item) =
        when is_unchanged item.action
        then return (
          record {
            outcome = add_skipped (item_at pt c.artifact.id i.ref skipped "") p.outcome;
            delivered = c.artifact.id ∷ p.delivered;
          },
          none,
        )
        else when is_held item.action
        then return (
          record p { outcome = add_skipped (record item { target_ref = i.ref }) p.outcome },
          none,
        )
        else deliver_now c i p

    -- A dry run goes on without an identity.
    unfoldable pub deliver_identified :
        PublishCandidate
        → Progress
        → DeliveryIdentity × Option Error
        → Step W (Progress × Option Error)
    unfolding deliver_planned item_by_id add_failed item_at
    deliver_identified c p (i, none) =
        deliver_planned c i p (item_by_id plan.plan.items c.artifact.id none)
    deliver_identified c p (i, some e) =
        when dry
        then deliver_planned c i p (item_by_id plan.plan.items c.artifact.id none)
        else return (
          record p {
            outcome = add_failed (item_at pt c.artifact.id i.ref failed (error_text e)) p.outcome;
          },
          none,
        )

    -- Every dependency is in place; a dry run does not ask.
    unfoldable pub is_ready : PublishCandidate → Progress → Bool
    unfolding depends_on contains
    is_ready c p =
        dry || all (contains p.delivered) (depends_on plan.plan.dependencies c.artifact.id)

    unfoldable pub is_item_blocked : Option PublishItemResult → Bool
    is_item_blocked none = false
    is_item_blocked (some item) = is_blocked item.action

    unfoldable pub deliver_one : PublishCandidate → Progress → Step W (Progress × Option Error)
    unfolding is_ready is_item_blocked item_by_id deliver_identified add_failed item_at
    deliver_one c p =
        when not (is_ready c p)
        then return (
          record p {
            outcome = add_failed (item_at pt c.artifact.id "" blocked waiting_for_others) p.outcome;
          },
          none,
        )
        else when is_item_blocked (item_by_id plan.plan.items c.artifact.id none)
        then return (p, none)
        else observe (λ w. (E.target_of w).identity c records)
          >>= (λ found. deliver_identified c p found)

    -- An error aborts the run, with the progress up to it.
    unfoldable pub unless_aborted :
        (Progress → Step W (Progress × Option Error))
        → Progress × Option Error
        → Step W (Progress × Option Error)
    unless_aborted rest (p, some e) = return (p, some e)
    unless_aborted rest (p, none) = rest p

    unfoldable pub deliver_all : List PublishCandidate → Progress → Step W (Progress × Option Error)
    unfolding deliver_one unless_aborted
    deliver_all [] p = return (p, none)
    deliver_all (c ∷ cs) p = deliver_one c p >>= unless_aborted (deliver_all cs)
