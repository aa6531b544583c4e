-- ===== src/Delivery/Deliver/One.antt =====
-- `deliverCandidate`, internal/app/delivery.go: the delivery of one candidate by the adapter.
use serial_sync.Base.{String, Option, none, some, List, [], ◌∷◌, ◌++◌, Error, Result, ok, err}
use serial_sync.Base.Stateful.{Step, return, observe, ◌>>=◌}
use serial_sync.Domain.Library.{PublishCandidate, PublishRecord, PublishRecordBundle}
use serial_sync.Publish.Target.{DeliveryIdentity, owned_hashes_at}
use serial_sync.Delivery.Effects.{Effects}

module _ {W : Type 0} (E : Effects W) where
  unfoldable pub write_pending : Option PublishRecord → Step W (Option Error)
  write_pending none = return none
  write_pending (some r) = E.upsert_publish_record r

  -- The delivery itself, unless the pending record could not be written.
  unfoldable pub deliver_unless :
      String
      → PublishCandidate
      → DeliveryIdentity
      → List String
      → Option Error
      → Step W (Result PublishRecord)
  deliver_unless scope c i owned (some e) = return (err e)
  deliver_unless scope c i owned none = E.deliver scope c i owned

  unfoldable pub deliver_checked :
      String
      → PublishCandidate
      → DeliveryIdentity
      → List String
      → Result String
      → Step W (Result PublishRecord)
  unfolding write_pending deliver_unless
  deliver_checked scope c i owned (err e) = return (err e)
  deliver_checked scope c i owned (ok current) =
      E.publishing_record c i
      >>= (λ pending. write_pending pending >>= (λ failure. deliver_unless scope c i owned failure))

  -- `deliverCandidate`: a last check of the destination, the pending record, the delivery.
  unfoldable pub deliver_candidate :
      String
      → PublishCandidate
      → DeliveryIdentity
      → List PublishRecordBundle
      → Step W (Result PublishRecord)
  unfolding deliver_checked
  deliver_candidate scope c i records =
      let owned = owned_hashes_at records i.ref ++ c.artifact.sha256 ∷ [] in
      observe (λ w. (E.target_of w).check_destination i.ref owned)
      >>= (λ checked. deliver_checked scope c i owned checked)
