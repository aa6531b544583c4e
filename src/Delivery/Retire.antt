-- ===== src/Delivery/Retire.antt =====
-- The planner's second loop: which delivered records a retiring target lets go.
use serial_sync.Base.{
  String, Bool, false, not, ◌&&◌, ◌||◌, none, some, List, [], ◌∷◌, ◌++◌, ◌⧺◌, ◌≟◌, is_empty,
  if◌then◌else◌, any, all, select, contains, Result, ok, err, sort_strings,
}
use serial_sync.Domain.Library.{
  PublishCandidate, PublishRecordBundle, VolumeEdition, is_published, release_ids,
}
use serial_sync.Domain.Plans.{blocked, retire, PublishItemResult}
use serial_sync.Publish.Target.{Target}

pub record PlanRetirement : Type 0 where
  pub record_id : String
  pub release_id : String
  pub artifact_id : String
  pub filename : String
  pub sha256 : String
  pub target_ref : String
  pub publish_hash : String
  pub related : List String

-- The loop over the snapshot's volumes: an edition with the record's artifact decides by its members,
-- the last such edition wins, and a record with none is complete if its release is covered.
unfoldable pub complete_after : List String → String → List VolumeEdition → Bool → Bool
unfolding release_ids contains
complete_after covered artifact_id [] complete = complete
complete_after covered artifact_id (v ∷ volumes) complete =
    complete_after covered artifact_id volumes (
      if v.artifact.id ≟ artifact_id
      then all (contains covered) (release_ids v.members)
      else complete)

unfoldable pub is_complete : List String → List VolumeEdition → PublishRecordBundle → Bool
unfolding complete_after
is_complete covered volumes old =
    complete_after covered old.artifact.id volumes (contains covered old.release.id)

-- The releases of every edition with the artifact.
unfoldable pub members_of : List VolumeEdition → String → List String
unfolding release_ids
members_of [] artifact_id = []
members_of (v ∷ volumes) artifact_id =
    let rest = members_of volumes artifact_id in
    if v.artifact.id ≟ artifact_id then release_ids v.members ++ rest else rest

-- The releases that the replacements have to stand for.
unfoldable pub required_by : List VolumeEdition → PublishRecordBundle → List String
unfolding members_of
required_by volumes old = old.release.id ∷ members_of volumes old.artifact.id

unfoldable pub replaces : List String → PublishCandidate → Bool
unfolding release_ids contains
replaces required c =
    (contains required c.release.id && not (is_empty c.release.id))
    || elim c.volume [ none ↦ false | some v ↦ any (contains required) (release_ids v.members) ]

unfoldable pub artifact_ids : List PublishCandidate → List String
artifact_ids [] = []
artifact_ids (c ∷ cs) = c.artifact.id ∷ artifact_ids cs

unfoldable pub related_to : List String → List PublishCandidate → List String
unfolding replaces artifact_ids sort_strings
related_to required candidates = sort_strings (artifact_ids (select (replaces required) candidates))

-- The retirement waits for a volume that is not built yet.
unfoldable pub waits_for : List String → List PublishCandidate → Bool
unfolding replaces
waits_for required candidates =
    any (λ c. replaces required c && elim c.volume [ none ↦ false | some v ↦ c.planned ]) candidates

-- `retirementOwnedHashes`, internal/app/replacement.go: the old artifact's bytes, and those of every
-- published record of the same release at the same destination.
unfoldable pub owned_siblings : PublishRecordBundle → List PublishRecordBundle → List String
owned_siblings old [] = []
owned_siblings old (r ∷ records) =
    let rest = owned_siblings old records in
    if is_published r.record_.status
      && r.release.id ≟ old.release.id
      && r.record_.target_ref ≟ old.record_.target_ref
    then r.artifact.sha256 ∷ rest
    else rest

unfoldable pub retirement_owned_hashes :
    List PublishRecordBundle → PublishRecordBundle → List String
unfolding owned_siblings
retirement_owned_hashes records old =
    old.artifact.sha256 ∷ (if is_empty old.release.id then [] else owned_siblings old records)

abbrev pub waiting_message : String
waiting_message =
    "Retirement depends on the regenerated volume being delivered; an unchanged edition keeps the current output."

-- `target %s retirement ownership conflict: %s`
unfoldable pub conflict_message : Target → PublishRecordBundle → String
conflict_message pt old =
    "target " ⧺ (pt.target_id ⧺ (" retirement ownership conflict: " ⧺ old.record_.target_ref))

unfoldable pub conflict_item : Target → PublishRecordBundle → PublishItemResult
unfolding conflict_message
conflict_item pt old = record {
  conditional = false;
  artifact_id = old.artifact.id;
  target_id = pt.target_id;
  target_kind = old.record_.target_kind;
  target_ref = old.record_.target_ref;
  action = blocked;
  message = conflict_message pt old;
}

unfoldable pub retire_item : Target → Bool → PublishRecordBundle → PublishItemResult
retire_item pt conditional old = record {
  conditional = conditional;
  artifact_id = old.artifact.id;
  target_id = pt.target_id;
  target_kind = old.record_.target_kind;
  target_ref = old.record_.target_ref;
  action = retire;
  message = if conditional then waiting_message else "";
}

unfoldable pub retirement_of : List String → PublishRecordBundle → PlanRetirement
retirement_of related old = record {
  record_id = old.record_.id;
  release_id = old.release.id;
  artifact_id = old.artifact.id;
  filename = old.record_.filename;
  sha256 = old.artifact.sha256;
  target_ref = old.record_.target_ref;
  publish_hash = old.record_.publish_hash;
  related = related;
}

-- What the retirement loop has added to the plan.
pub record Retired : Type 0 where
  pub items : List PublishItemResult
  pub blocked : List String
  pub retirements : List PlanRetirement

abbrev pub nothing_retired : Retired
nothing_retired = record { items = []; blocked = []; retirements = [] }

-- The record is delivered, no candidate wants it, and candidates cover all that it holds.
unfoldable pub is_retirable :
    Target → List String → List String → List VolumeEdition → PublishRecordBundle → Bool
unfolding is_complete contains
is_retirable pt desired covered volumes old =
    is_published old.record_.status
    && not (contains desired (pt.desired_key_for_record old))
    && is_complete covered volumes old

module _ (pt : Target) (candidates : List PublishCandidate) (records : List PublishRecordBundle)
    (volumes : List VolumeEdition) (desired covered : List String) where
  -- The branch on the ownership of the old destination.
  unfoldable pub settle : Result String → PublishRecordBundle → Retired → Retired
  unfolding required_by related_to waits_for conflict_item retire_item retirement_of
  settle (err e) old r = record r {
    items = r.items ++ conflict_item pt old ∷ [];
    blocked = r.blocked ++ conflict_message pt old ∷ [];
  }
  settle (ok current) old r =
      let required = required_by volumes old in
      record r {
        items = r.items ++ retire_item pt (waits_for required candidates) old ∷ [];
        retirements = r.retirements ++ retirement_of (related_to required candidates) old ∷ [];
      }

  unfoldable pub retire_record : PublishRecordBundle → Retired → Retired
  unfolding settle retirement_owned_hashes
  retire_record old =
      settle (pt.check_destination old.record_.target_ref (retirement_owned_hashes records old)) old

  unfoldable pub retire_records : List PublishRecordBundle → Retired → Retired
  unfolding is_retirable retire_record
  retire_records [] r = r
  retire_records (old ∷ rest) r =
      retire_records rest
        (if is_retirable pt desired covered volumes old then retire_record old r else r)
