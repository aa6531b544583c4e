-- ===== src/Publish/Filesystem/Deliver.antt =====
-- `Deliver` and `Retire` of the filesystem and the drop adapter, internal/publish/filesystem.go and
-- drop.go, on the files and the operating system's answers.
use serial_sync.Base.{
  String, not, Option, none, some, List, ◌⧺◌, ◌≟◌, any, is_empty, Error, errorf, error_text, Result,
  ok, err,
}
use serial_sync.Base.Stateful.{Step, return, observe, ◌>>=◌, when◌then◌else◌}
use serial_sync.Domain.Library.{PublishCandidate, PublishRecord, PublishRecordBundle, PublishStatus}
use serial_sync.Publish.Target.{DeliveryIdentity, absent, check_filesystem_destination}
use serial_sync.Publish.Filesystem.{ref}
use serial_sync.Publish.Filesystem.Copy.{Files, Calls, set, write, copy_file}

-- The record of a delivery by a target with this id and kind.
unfoldable pub record_of :
    String
    → String
    → Calls
    → PublishStatus
    → String
    → PublishCandidate
    → DeliveryIdentity
    → PublishRecord
record_of id kind k status filename c i = record {
  filename = filename;
  id = "pub_" ⧺ k.uuid;
  artifact_id = c.artifact.id;
  target_id = id;
  target_kind = kind;
  target_ref = i.ref;
  publish_hash = i.publish_hash;
  published_at = k.now;
  status = status;
  message = "";
}

-- `PublishingRecord`: the entry of the ledger before the file lands.
unfoldable pub publishing_record :
    String → String → Calls → PublishCandidate → DeliveryIdentity → Option PublishRecord
unfolding record_of
publishing_record id kind k c i = some (record_of id kind k PublishStatus.publishing "" c i)

module _ (empty id kind : String) (k : Calls) (c : PublishCandidate) (i : DeliveryIdentity) where
  unfoldable pub published : PublishRecord
  unfolding record_of
  published = record_of id kind k PublishStatus.published c.artifact.filename c i

  unfoldable pub after_copy : Option Error → Step Files (Result PublishRecord)
  unfolding published
  after_copy (some e) = return (err e)
  after_copy none = return (ok published)

  unfoldable pub place_file : Result String → Step Files (Result PublishRecord)
  unfolding published after_copy copy_file
  place_file (err e) = return (err e)
  place_file (ok current) =
      when current ≟ c.artifact.sha256
      then return (ok published)
      else copy_file empty k c.artifact.storage_ref i.ref c.artifact.sha256 >>= after_copy

  -- The destination is checked again at the time of the delivery.
  unfoldable pub after_dir : List String → Option Error → Step Files (Result PublishRecord)
  unfolding place_file
  after_dir owned (some e) = return (err e)
  after_dir owned none =
      observe (λ f. check_filesystem_destination f.disk i.ref owned) >>= place_file

  -- `FilesystemTarget.Deliver`
  unfoldable pub deliver_file : List String → Option Error → Step Files (Result PublishRecord)
  unfolding after_dir
  deliver_file owned (some e) = return (err e)
  deliver_file owned none = after_dir owned k.make_dir

  -- `DropTarget.Deliver`, with the `strconv.Quote` of its id: a missing root is not made.
  unfoldable pub drop_file :
      String → String → List String → Option Error → Step Files (Result PublishRecord)
  unfolding after_dir
  drop_file quoted root owned (some e) = return (err e)
  drop_file quoted root owned none =
      when not k.is_root_dir
      then return (
          err (errorf ("drop publisher " ⧺ (quoted ⧺ (" root " ⧺ (root ⧺ " is not a directory"))))))
      else after_dir owned k.make_dir

module _ (path : String) (k : Calls) where
  unfoldable pub remove_file : String → Option Error → Step Files (Option Error)
  unfolding write set
  remove_file ref (some e) = return (some e)
  remove_file ref none = write (λ d. set d ref absent) >>= (λ removed. return none)

  unfoldable pub retire_checked : String → Result String → Step Files (Option Error)
  unfolding remove_file
  retire_checked ref (err e) =
      return (some (errorf ("retirement ownership conflict: " ⧺ (ref ⧺ (": " ⧺ error_text e)))))
  retire_checked ref (ok current) =
      when is_empty current then return none else remove_file ref k.remove

  -- `FilesystemTarget.Retire`: a planned replacement at the place leaves nothing to remove.
  unfoldable pub retire_file :
      PublishRecordBundle → List PublishCandidate → List String → Step Files (Option Error)
  unfolding ref retire_checked
  retire_file old candidates owned =
      let place = old.record_.target_ref in
      when any (λ c. ref path c ≟ place) candidates
      then return none
      else observe (λ f. check_filesystem_destination f.disk place owned) >>= retire_checked place
