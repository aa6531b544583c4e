-- ===== src/Tests/Delivery.antt =====
-- The planner on the small library.
use serial_sync.Base.{
  sort_strings, contains, String, false, none, some, [], ◌∷◌, ◌≡◌, ◌≢◌, refl, All, length, contains,
  ok, eq_iff, false≢true,
}
use serial_sync.Base.FilePath
use serial_sync.Domain.Library.{PublishRecordBundle, VolumeEdition}
use serial_sync.Domain.Plans.{blocked, unchanged, held}
use serial_sync.Publish.Target.{Target, file_hash, owned_hashes_at, check_filesystem_destination}
use serial_sync.Publish.Filesystem.{filesystem_target, hash_publish, ref}
use serial_sync.Publish.Drop.{drop_target}
use serial_sync.Delivery.Candidate.{item_of}
use serial_sync.Delivery.Plan.{DeliveryPlan, plan_ordered, plan_delivery}
use serial_sync.Delivery.Items.{NoHandoffOnError, count_blocked, plan_delivery_balanced}
use serial_sync.Delivery.Ownership.{OwnDelivery, unowned-blocked, unchanged-in_place, no_handoff}
use serial_sync.Delivery.Retirement.{Owned, retired-Owned}
use serial_sync.Delivery.HandOff.{drop_action, drop-action}
use serial_sync.Publish.Filesystem.Order.{
  depend_candidates, depend_records, visit_all, visit, finish, sort_dependencies, by_id,
  candidate_ids,
}
use serial_sync.Publish.Target.{depends_on}
use serial_sync.Tests.Data.{
  chapter, delivery, old_artifact, new_artifact, snapshot, candidates, one_file, digest,
}

abbrev old_path : String
old_path = "/lib/src/story/old.epub"

abbrev lib : Target
lib = filesystem_target digest (one_file old_path "sha1") "lib" "/lib"

abbrev the_plan : DeliveryPlan
the_plan = plan_ordered false lib candidates snapshot candidates []

the_plan_lem : plan_delivery false lib candidates snapshot ≡ ok the_plan
unfolding plan_delivery filesystem_target ref depend_candidates depend_records visit_all visit
    finish sort_dependencies by_id candidate_ids depends_on contains sort_strings
the_plan_lem = refl

-- The renamed chapter retires its old file.
one_retirement : length the_plan.retirements ≡ 1
unfolding plan_ordered filesystem_target ref check_filesystem_destination file_hash FilePath.join
one_retirement = refl

retired-Owned_example : All (Owned (one_file old_path "sha1") snapshot) the_plan.retirements
retired-Owned_example =
    retired-Owned false digest (one_file old_path "sha1") "lib" "/lib" candidates snapshot
      the_plan_lem

lib-NoHandoffOnError : NoHandoffOnError lib
lib-NoHandoffOnError c records h =
    no_handoff digest (one_file old_path "sha1") "lib" "/lib" c records

plan_delivery_balanced_example : count_blocked the_plan.items ≡ length the_plan.blocked
plan_delivery_balanced_example =
    plan_delivery_balanced false lib candidates snapshot lib-NoHandoffOnError the_plan_lem

abbrev new_path : String
new_path = "/lib/src/story/new.epub"

-- A foreign file at the destination of the new artifact blocks it.
foreign :
    file_hash (one_file new_path "other") (ref "/lib" (chapter "r1" new_artifact)) ≡ ok "other"
unfolding file_hash ref
foreign = refl

nobody : contains (owned_hashes_at [] (ref "/lib" (chapter "r1" new_artifact))) "other" ≡ false
unfolding contains owned_hashes_at
nobody = refl

other_not_empty : ◌≢◌ {A = String} "other" ""
other_not_empty e = false≢true ((eq_iff "other" "").1 e)

unowned-blocked_example :
    (item_of
      (filesystem_target digest (one_file new_path "other") "lib" "/lib")
      (chapter "r1" new_artifact)
      []).action
    ≡ blocked
unowned-blocked_example =
    unowned-blocked digest (one_file new_path "other") "lib" "/lib" (chapter "r1" new_artifact) []
      "other" foreign other_not_empty nobody

-- A delivery whose file is in place is left alone.
abbrev in_place : PublishRecordBundle
in_place =
    let d = delivery "r1" new_artifact new_path in
    record d {
      record_ = record d.record_ { publish_hash = hash_publish digest "lib" "sha2" new_path };
    }

abbrev settled : Target
settled = filesystem_target digest (one_file new_path "sha2") "lib" "/lib"

settled_unchanged : (item_of settled (chapter "r1" new_artifact) (in_place ∷ [])).action ≡ unchanged
unfolding item_of filesystem_target ref hash_publish check_filesystem_destination owned_hashes_at
    file_hash contains
settled_unchanged = refl

unchanged-in_place_example :
    (file_hash (one_file new_path "sha2") (ref "/lib" (chapter "r1" new_artifact)) ≡ ok "sha2")
    × OwnDelivery settled
        (chapter "r1" new_artifact)
        (settled.identity (chapter "r1" new_artifact) (in_place ∷ [])).0
        (in_place ∷ [])
unchanged-in_place_example =
    unchanged-in_place digest (one_file new_path "sha2") "lib" "/lib" (chapter "r1" new_artifact)
      (in_place ∷ []) settled_unchanged

-- A revision of a release that was handed off is held.
abbrev inbox : Target
inbox = drop_target digest digest (one_file "" "") "inbox" "/in"

abbrev handed : PublishRecordBundle
handed = delivery "r1" old_artifact "/in/src/story/old.epub"

drop-action_example :
    ((chapter "r1" new_artifact).volume ≡ none
      → (item_of inbox (chapter "r1" new_artifact) (handed ∷ [])).action
        ≡ drop_action (handed ∷ []) (chapter "r1" new_artifact))
    × ((v : VolumeEdition)
        → (chapter "r1" new_artifact).volume ≡ some v
        → (item_of inbox (chapter "r1" new_artifact) (handed ∷ [])).action ≡ blocked)
drop-action_example =
    drop-action digest digest (one_file "" "") "inbox" "/in" (chapter "r1" new_artifact)
      (handed ∷ [])

revision_held : (item_of inbox (chapter "r1" new_artifact) (handed ∷ [])).action ≡ held
unfolding item_of drop_target
revision_held = refl
