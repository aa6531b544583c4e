-- ===== src/Publish/Filesystem.antt =====
-- internal/publish/filesystem.go: the adapter that writes each file to its place below `Path`.
pub mod Order
pub mod Copy
pub mod Deliver
pub mod Atomic
pub mod Untouched
use serial_sync.Publish.Filesystem.Order.{reorder}
use serial_sync.Base.{
  String, Bool, true, false, not, ◌&&◌, Option, none, some, List, [], ◌∷◌, ◌⧺◌, ◌≟◌, is_empty,
  Error, Result, ok, err,
}
use serial_sync.Base.FilePath
use serial_sync.Domain.Library.{PublishCandidate, PublishRecordBundle}
use serial_sync.Publish.Target.{
  Target, DeliveryIdentity, handoff_none, Capabilities, Disk, owned_hashes_at,
  check_filesystem_destination,
}

-- `hashPublish`, over the hexadecimal SHA-256 of a text.
unfoldable pub hash_publish : (String → String) → String → String → String → String
hash_publish sha256 target_id artifact_sha target_path =
    sha256 (target_id ⧺ ("\0" ⧺ (artifact_sha ⧺ ("\0" ⧺ target_path))))

unfoldable pub ref : String → PublishCandidate → String
unfolding FilePath.join
ref path c = FilePath.join (path ∷ c.source.id ∷ c.track.track_key ∷ c.artifact.filename ∷ [])

-- What the check of the destination makes of an identity: its error goes beside it, and the bytes of
-- the artifact make it intact.
unfoldable pub placed : String → DeliveryIdentity → Result String → DeliveryIdentity × Option Error
placed sha base (err e) = (base, some e)
placed sha base (ok current) =
    (record base { intact = not (is_empty current) && current ≟ sha }, none)

module _ (sha256 : String → String) (disk : Disk) (id path : String) where
  unfoldable pub identity :
      PublishCandidate → List PublishRecordBundle → DeliveryIdentity × Option Error
  unfolding placed
  identity c records =
      let r = ref path c in
      let base : DeliveryIdentity = record {
        ref = r;
        publish_hash = hash_publish sha256 id c.artifact.sha256 r;
        desired_key = r ⧺ ("\0" ⧺ (c.artifact.id ⧺ ("\0" ⧺ c.artifact.filename)));
        intact = false;
        handoff = handoff_none;
      } in
      placed c.artifact.sha256 base
        (check_filesystem_destination disk r (owned_hashes_at records r))

  unfoldable pub desired_key_for_record : PublishRecordBundle → String
  desired_key_for_record r =
      r.record_.target_ref ⧺ ("\0" ⧺ (r.artifact.id ⧺ ("\0" ⧺ r.record_.filename)))

  unfoldable pub matches_destination : PublishRecordBundle → PublishCandidate → Bool
  matches_destination r c = r.record_.target_ref ≟ ref path c

  -- `FilesystemTarget`, on the files of `disk`.
  unfoldable pub filesystem_target : Target
  unfolding identity desired_key_for_record matches_destination reorder
  filesystem_target = record {
    target_id = id;
    kind = "filesystem";
    capabilities = record { pending_record = true; retires = true; hands_off = false };
    identity = identity;
    desired_key_for_record = desired_key_for_record;
    matches_destination = matches_destination;
    reorder = reorder id (ref path);
    check_destination = check_filesystem_destination disk;
  }
