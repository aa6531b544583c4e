-- ===== src/Delivery/Candidate.antt =====
-- The planner's first loop: what becomes of each desired candidate.
use serial_sync.Base.{
  String, Bool, true, false, not, ◌&&◌, Option, none, some, List, [], ◌∷◌, ◌++◌, ◌⧺◌, ◌≟◌, is_empty,
  if◌then◌else◌, Error, error_text,
}
use serial_sync.Domain.Library.{PublishCandidate, PublishRecordBundle, is_published, release_ids}
use serial_sync.Domain.Plans.{
  Action, add, replace, repair, unchanged, held, blocked, PublishItemResult,
}
use serial_sync.Publish.Target.{
  Target, DeliveryIdentity, Handoff, handoff_none, handoff_same, handoff_revised,
}

-- The action before the records are read.
unfoldable pub initial_action : Option Error → Handoff → Action
initial_action e handoff_same = unchanged
initial_action e handoff_revised = held
initial_action none handoff_none = add
initial_action (some e) handoff_none = blocked

abbrev pub is_none : Handoff → Bool
is_none h = elim h [ handoff_none ↦ true | _ ↦ false ]

module _ (pt : Target) (c : PublishCandidate) (identity : DeliveryIdentity) where
  -- The record is the candidate's own delivery, with the same bytes at the same place.
  unfoldable pub same_delivery_of : PublishRecordBundle → Bool
  same_delivery_of r =
      not c.planned
      && (c.artifact.release_id ≟ r.artifact.release_id
          && c.artifact.track_id ≟ r.artifact.track_id)
      && pt.matches_destination r c
      && c.artifact.sha256 ≟ r.artifact.sha256
      && not (is_empty c.artifact.sha256)
      && r.record_.publish_hash ≟ identity.publish_hash

  -- The loop over the records, entered with no error and no hand-off: the action, and the key that
  -- an unchanged delivery adds to the desired set.
  unfoldable pub scan_records : List PublishRecordBundle → Action → Action × List String
  unfolding same_delivery_of
  scan_records [] action = (action, [])
  scan_records (r ∷ records) action =
      let matched = if pt.matches_destination r c then replace else action in
      let rest = scan_records records (if is_published r.record_.status then matched else action) in
      if is_published r.record_.status && same_delivery_of r
      then (if identity.intact then (unchanged, pt.desired_key_for_record r ∷ []) else (repair, []))
      else rest

-- The action of a candidate with this identity, and the keys that it adds.
unfoldable pub decide :
    Target
    → PublishCandidate
    → DeliveryIdentity × Option Error
    → List PublishRecordBundle
    → Action × List String
unfolding initial_action scan_records
decide pt c (identity, some e) records = (initial_action (some e) identity.handoff, [])
decide pt c (identity, none) records =
    if is_none identity.handoff
    then scan_records pt c identity records add
    else (initial_action none identity.handoff, [])

-- A volume whose reading copy is not built yet may keep its current output.
unfoldable pub is_conditional : PublishCandidate → Action → Bool
is_conditional c action =
    elim c.volume [ none ↦ false | some v ↦ c.planned ]
    && elim action [ add ↦ true | replace ↦ true | repair ↦ true | _ ↦ false ]

abbrev pub conditional_message : String
conditional_message =
    "Volume may be rebuilt and delivered after member bytes are regenerated; an unchanged edition keeps the current output."

abbrev pub held_message : String
held_message = "revision held: this release was already handed off"

abbrev pub held_or : Handoff → String → String
held_or h message = elim h [ handoff_revised ↦ held_message | _ ↦ message ]

-- `target %s: %v`
unfoldable pub block_message : Target → Error → String
block_message pt e = "target " ⧺ (pt.target_id ⧺ (": " ⧺ error_text e))

unfoldable pub item_message :
    Target → PublishCandidate → DeliveryIdentity × Option Error → Action → String
unfolding block_message is_conditional
item_message pt c (identity, none) action =
    if is_conditional c action then conditional_message else held_or identity.handoff ""
item_message pt c (identity, some e) action =
    if is_conditional c action
    then conditional_message
    else held_or identity.handoff (block_message pt e)

-- The item that a round of the loop appends to the plan.
unfoldable pub item_of : Target → PublishCandidate → List PublishRecordBundle → PublishItemResult
unfolding decide item_message
item_of pt c records =
    let found = pt.identity c records in
    let action = (decide pt c found records).0 in
    record {
      conditional = is_conditional c action;
      artifact_id = c.artifact.id;
      target_id = pt.target_id;
      target_kind = pt.kind;
      target_ref = found.0.ref;
      action = action;
      message = item_message pt c found action;
    }

-- The keys that a round adds to the desired set.
unfoldable pub desired_of : Target → PublishCandidate → List PublishRecordBundle → List String
unfolding decide
desired_of pt c records =
    let found = pt.identity c records in found.0.desired_key ∷ (decide pt c found records).1

-- The releases that a candidate covers.
unfoldable pub covered_by : PublishCandidate → List String
unfolding release_ids
covered_by c = elim c.volume [ none ↦ c.release.id ∷ [] | some v ↦ release_ids v.members ]

-- `plan.Blocked`, one message for each candidate whose identity is an error.
unfoldable pub blocked_by : Target → PublishCandidate → List PublishRecordBundle → List String
unfolding block_message
blocked_by pt c records = elim (pt.identity c records).1 [
  | none ↦ []
  | some e ↦ block_message pt e ∷ []
]

-- What the loop over the candidates has built.
pub record Planned : Type 0 where
  pub items : List PublishItemResult
  pub blocked : List String
  pub identities : List (String × DeliveryIdentity)
  pub desired : List String
  pub covered : List String

abbrev pub nothing_planned : Planned
nothing_planned = record { items = []; blocked = []; identities = []; desired = []; covered = [] }

-- `plan.Identities[artifactID] = identity`, for a candidate that is not blocked.
unfoldable pub identities_of :
    Target → PublishCandidate → List PublishRecordBundle → List (String × DeliveryIdentity)
identities_of pt c records =
    let found = pt.identity c records in
    elim found.1 [ none ↦ (c.artifact.id, found.0) ∷ [] | some e ↦ [] ]

unfoldable pub plan_candidate :
    Target → List PublishRecordBundle → Planned → PublishCandidate → Planned
unfolding item_of desired_of covered_by blocked_by identities_of
plan_candidate pt records p c = record {
  items = p.items ++ item_of pt c records ∷ [];
  blocked = p.blocked ++ blocked_by pt c records;
  identities = identities_of pt c records ++ p.identities;
  desired = p.desired ++ desired_of pt c records;
  covered = p.covered ++ covered_by c;
}

unfoldable pub plan_candidates :
    Target → List PublishRecordBundle → List PublishCandidate → Planned → Planned
unfolding plan_candidate
plan_candidates pt records [] p = p
plan_candidates pt records (c ∷ cs) p =
    plan_candidates pt records cs (plan_candidate pt records p c)
