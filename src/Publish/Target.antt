-- ===== src/Publish/Target.antt =====
-- internal/publish/target.go: the interface of an adapter, as far as planning reads it.
use serial_sync.Base.{
  String, Bool, false, Option, List, [], ◌∷◌, ◌++◌, ◌⧺◌, ◌≟◌, ◌&&◌, if◌then◌else◌, Error, errorf,
  Result, ok, err, contains,
}
use serial_sync.Domain.Library.{
  PublishCandidate, PublishRecordBundle, VolumeEdition, owns_destination,
}

-- How a candidate relates to an earlier hand-off of the same release.
pub data Handoff : Type 0 where
  handoff_none handoff_same handoff_revised : Handoff

pub record DeliveryIdentity : Type 0 where
  pub ref : String
  pub publish_hash : String
  pub desired_key : String
  pub intact : Bool
  pub handoff : Handoff

-- `DeliveryIdentity{}`
abbrev pub no_identity : DeliveryIdentity
no_identity = record {
  ref = "";
  publish_hash = "";
  desired_key = "";
  intact = false;
  handoff = handoff_none;
}

pub record Capabilities : Type 0 where
  pub pending_record : Bool
  pub retires : Bool
  pub hands_off : Bool

-- `map[string][]string`, the artifact ids that must be delivered first.
abbrev pub Dependencies : Type 0
Dependencies = List (String × List String)

-- `m[k]` on such a map: the empty list where the key is missing.
unfoldable pub depends_on : Dependencies → String → List String
depends_on [] k = []
depends_on ((j, ids) ∷ m) k = if j ≟ k then ids else depends_on m k

-- `m[k] = append(m[k], id)`
unfoldable pub add_dependency : Dependencies → String → String → Dependencies
add_dependency [] k id = (k, id ∷ []) ∷ []
add_dependency ((j, ids) ∷ m) k id =
    if j ≟ k then (j, ids ++ id ∷ []) ∷ m else (j, ids) ∷ add_dependency m k id

-- An adapter. `identity` returns its identity beside the error, as the code does.
pub record Target : Type 0 where
  pub target_id : String
  pub kind : String
  pub capabilities : Capabilities
  pub identity : PublishCandidate → List PublishRecordBundle → DeliveryIdentity × Option Error
  pub desired_key_for_record : PublishRecordBundle → String
  pub matches_destination : PublishRecordBundle → PublishCandidate → Bool
  pub reorder :
      List PublishCandidate
      → List PublishRecordBundle
      → List VolumeEdition
      → Result (List PublishCandidate × Dependencies)
  pub check_destination : String → List String → Result String

-- The artifact hashes that the snapshot entitles to occupy `ref`.
unfoldable pub owned_hashes_at : List PublishRecordBundle → String → List String
owned_hashes_at [] ref = []
owned_hashes_at (r ∷ records) ref =
    let rest = owned_hashes_at records ref in
    if r.record_.target_ref ≟ ref && owns_destination r.record_.status
    then r.artifact.sha256 ∷ rest
    else rest

-- An entry of the file system, as `filehash.Hash` tells them apart.
pub data Entry : Type 0 where
  absent : Entry
  regular : String → Entry
  irregular : Entry
  unreadable : Error → Entry

-- The files below the destinations, by path.
abbrev pub Disk : Type 0
Disk = String → Entry

-- `filehash.Hash`: the content's hash, "" where there is no file. An `Entry` holds the hash.
unfoldable pub file_hash : Disk → String → Result String
file_hash disk path = elim (disk path) [
  | absent ↦ ok ""
  | regular sha ↦ ok sha
  | irregular ↦ err (errorf ("destination is not a regular file: " ⧺ path))
  | unreadable e ↦ err e
]

-- `CheckFilesystemDestination`
unfoldable pub check_filesystem_destination : Disk → String → List String → Result String
check_filesystem_destination disk path owned = elim (file_hash disk path) [
  | err e ↦ err e
  | ok current ↦
      if current ≟ ""
      then ok current
      else if contains owned current
      then ok current
      else err (errorf ("destination ownership conflict: " ⧺ path))
]
