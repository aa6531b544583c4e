-- ===== src/Publish/Destination.antt =====
-- The check of a destination, `CheckFilesystemDestination` of internal/publish/filesystem.go.
use serial_sync.Base.{
  String, true, false, List, ◌≡◌, refl, ◌≢◌, ◌⊎◌, ◌≟◌, arith, if◌then◌else◌, contains, eq_iff,
  errorf, ◌⧺◌, Result, ok, err,
}
use serial_sync.Publish.Target.{Disk, regular, file_hash, check_filesystem_destination}

-- The check passes exactly on a free destination and on bytes that are owned.
pub check_filesystem_destination_ok :
    (disk : Disk) (path : String) (owned : List String) (current : String)
    → check_filesystem_destination disk path owned ≡ ok current
    → (file_hash disk path ≡ ok current) × ((current ≡ "") ⊎ (contains owned current ≡ true))
unfolding check_filesystem_destination
check_filesystem_destination_ok disk path owned current h = passed (file_hash disk path) refl h
  where
    passed :
        (found : Result String)
        → file_hash disk path ≡ found
        → (elim found [
          | err e ↦ err e
          | ok c ↦
              if c ≟ ""
              then ok c
              else if contains owned c
              then ok c
              else err (errorf ("destination ownership conflict: " ⧺ path))
        ])
          ≡ ok current
        → (file_hash disk path ≡ ok current) × ((current ≡ "") ⊎ (contains owned current ≡ true))
    passed (err e) eq k = cc
    passed (ok c) eq k = ground (arith, eq_iff c "")

pub check_unowned :
    (disk : Disk) (path : String) (owned : List String) (current : String)
    → file_hash disk path ≡ ok current
    → current ≢ ""
    → contains owned current ≡ false
    → check_filesystem_destination disk path owned
      ≡ err (errorf ("destination ownership conflict: " ⧺ path))
unfolding check_filesystem_destination
check_unowned disk path owned current there ne no_owner = ground (arith, eq_iff current "")

pub file_hash-regular :
    (disk : Disk) (path sha : String) → disk path ≡ regular sha → file_hash disk path ≡ ok sha
unfolding file_hash
file_hash-regular disk path sha h = ground arith
