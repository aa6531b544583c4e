-- ===== src/Publish/Drop.antt =====
-- internal/publish/drop.go: the adapter that hands a file to a library manager. The catalog's
-- published record, keyed by source and provider release, is the only proof of a hand-off.
use serial_sync.Base.{
  String, Bool, true, false, not, ◌&&◌, Option, none, some, List, [], ◌∷◌, ◌⧺◌, ◌≟◌, is_empty,
  if◌then◌else◌, Error, errorf, ok,
}
use serial_sync.Domain.Library.{PublishCandidate, PublishRecordBundle, is_published}
use serial_sync.Publish.Target.{
  Target, DeliveryIdentity, no_identity, Handoff, handoff_none, handoff_same, handoff_revised, Disk,
  check_filesystem_destination,
}
use serial_sync.Publish.Filesystem.{hash_publish, ref}

unfoldable pub drop_key : String → String → String
drop_key source_id provider_release_id = source_id ⧺ ("\0" ⧺ provider_release_id)

-- The record is a published hand-off of the release with this key.
unfoldable pub handed_off : String → PublishRecordBundle → Bool
unfolding drop_key
handed_off key r =
    is_published r.record_.status && drop_key r.source.id r.release.provider_release_id ≟ key

-- The loop over the records: the first record with the same bytes ends it.
unfoldable pub handoff_of : String → String → List PublishRecordBundle → Handoff → Handoff
unfolding handed_off
handoff_of key sha [] so_far = so_far
handoff_of key sha (r ∷ records) so_far =
    let same_bytes = not (is_empty sha) && r.artifact.sha256 ≟ sha in
    let rest = handoff_of key sha records (if handed_off key r then handoff_revised else so_far) in
    if handed_off key r && same_bytes then handoff_same else rest

-- `sha256` is the hexadecimal SHA-256 of a text, `quote` Go's `strconv.Quote`.
module _ (sha256 quote : String → String) (disk : Disk) (id path : String) where
  unfoldable pub identity :
      PublishCandidate → List PublishRecordBundle → DeliveryIdentity × Option Error
  unfolding drop_key handoff_of
  identity c records =
      let key = drop_key c.source.id c.release.provider_release_id in
      elim c.volume [
        | some v ↦ (
          no_identity,
          some (errorf ("drop publisher " ⧺ (quote id ⧺ " cannot deliver volume output"))),
        )
        | none ↦ (
          record {
            ref = ref path c;
            publish_hash = hash_publish sha256 id c.artifact.sha256 key;
            desired_key = key;
            intact = true;
            handoff = handoff_of key c.artifact.sha256 records handoff_none;
          },
          none,
        )
      ]

  -- `DropTarget`: no destination is ever matched, reordered or retired.
  unfoldable pub drop_target : Target
  unfolding identity drop_key
  drop_target = record {
    target_id = id;
    kind = "drop";
    capabilities = record { pending_record = true; retires = false; hands_off = true };
    identity = identity;
    desired_key_for_record = λ r. drop_key r.source.id r.release.provider_release_id;
    matches_destination = λ r c. false;
    reorder = λ candidates records volumes. ok (candidates, []);
    check_destination = check_filesystem_destination disk;
  }
