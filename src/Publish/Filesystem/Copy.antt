-- ===== src/Publish/Filesystem/Copy.antt =====
-- `copyFile`, internal/publish/filesystem.go: the bytes go to a temporary file beside the destination,
-- which takes its place only once they are synced and verified.
use serial_sync.Base.{
  ℕ, String, Bool, Option, none, some, List, [], ◌∷◌, ◌⧺◌, ◌≟◌, if◌then◌else◌, Error, errorf,
  Result, ok, err,
}
use serial_sync.Base.Stateful.{Step, return, ◌>>=◌}
use serial_sync.Publish.Target.{Disk, Entry, absent, regular}

-- The files, and the disk of every moment before, the latest first.
pub record Files : Type 0 where
  pub disk : Disk
  pub past : List Disk

-- What the operating system answers to the calls of one delivery, an error or none. `temp` is the
-- name that `os.CreateTemp` makes. `copied` is the hash of the bytes that have reached the temporary
-- file when `io.Copy` returns, with its error. `clean` is what the deferred removal of the temporary
-- file answers. `uuid` and `now` are the random name and the clock.
pub record Calls : Type 0 where
  pub cancelled : Option Error
  pub is_root_dir : Bool
  pub make_dir : Option Error
  pub open_source : Option Error
  pub temp : Result String
  pub copied : String × Option Error
  pub sync : Option Error
  pub close : Option Error
  pub rehash : Option Error
  pub chmod : Option Error
  pub rename : Option Error
  pub clean : Option Error
  pub open_dir : Option Error
  pub sync_dir : Option Error
  pub remove : Option Error
  pub uuid : String
  pub now : ℕ

unfoldable pub set : Disk → String → Entry → Disk
set disk path e other = if other ≟ path then e else disk other

-- One change of the files.
unfoldable pub write : (Disk → Disk) → Step Files Unit
write change f = (record { disk = change f.disk; past = f.disk ∷ f.past }, tt)

-- `if err != nil { return err }`, before the rest.
unfoldable pub unless : {W : Type 0} → Option Error → Step W (Option Error) → Step W (Option Error)
unless (some e) rest = return (some e)
unless none rest = rest

-- The first error of calls in a row.
unfoldable pub first_error : List (Option Error) → Option Error
first_error [] = none
first_error (none ∷ rest) = first_error rest
first_error (some e ∷ rest) = some e

-- `os.Rename`, if it is through.
unfoldable pub move : String → String → Disk → Disk
unfolding set
move from to disk = set (set disk to (disk from)) from absent

-- `os.Remove`, if it is through: an error leaves the files as they are.
unfoldable pub discard : Option Error → String → Disk → Disk
unfolding set
discard none path disk = set disk path absent
discard (some e) path disk = disk

-- `empty` is the hash of no bytes.
module _ (empty : String) (k : Calls) (src dst expected : String) where
  -- The verification of the temporary file's bytes.
  unfoldable pub mismatch : Option Error
  mismatch =
      if k.copied.0 ≟ expected then none else some (errorf ("artifact hash mismatch for " ⧺ src))

  -- All that can fail before the destination changes.
  unfoldable pub verify : Option Error
  unfolding first_error mismatch
  verify =
      first_error (k.copied.1 ∷ k.sync ∷ k.close ∷ k.rehash ∷ mismatch ∷ k.chmod ∷ k.rename ∷ [])

  unfoldable pub stage : String → Step Files (Option Error)
  unfolding write set unless verify move first_error
  stage temp = write (λ d. set d temp (regular k.copied.0)) >>= (λ written.
      unless verify
        (write (move temp dst) >>= (λ moved. return (first_error (k.open_dir ∷ k.sync_dir ∷ [])))))

  -- The deferred removal of the temporary file, which is gone after a rename. Its error is dropped.
  unfoldable pub clean_up : String → Option Error → Step Files (Option Error)
  unfolding write discard
  clean_up temp failure = write (discard k.clean temp) >>= (λ removed. return failure)

  unfoldable pub create : Result String → Step Files (Option Error)
  unfolding write set stage clean_up
  create (err e) = return (some e)
  create (ok temp) =
      write (λ d. set d temp (regular empty))
      >>= (λ created. stage temp >>= (λ failure. clean_up temp failure))

  unfoldable pub copy_file : Step Files (Option Error)
  unfolding unless create
  copy_file = unless k.open_source (create k.temp)
