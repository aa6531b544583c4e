-- ===== src/Delivery/FileEffects.antt =====
-- The executor's operations with the filesystem and the drop adapter in them: `TargetFor` of
-- internal/publish/target.go gives the executor an adapter, here on the files of the state.
use serial_sync.Base.{String, some, Error, errorf}
use serial_sync.Base.Stateful.{Step, return, observe}
use serial_sync.Publish.Filesystem.{filesystem_target}
use serial_sync.Publish.Drop.{drop_target}
use serial_sync.Publish.Filesystem.Copy.{Files, Calls}
use serial_sync.Publish.Filesystem.Deliver.{publishing_record, deliver_file, drop_file, retire_file}
use serial_sync.Delivery.Effects.{Effects}

-- Where a state has its files, and what the operating system would answer in that state.
pub record FileStore (W : Type 0) : Type 0 where
  pub files : W → Files
  pub put : Files → W → W
  pub answers : W → Calls

module _ {W A : Type 0} where
  -- A step on the files alone.
  unfoldable pub on_files : FileStore W → (W → Step Files A) → Step W A
  on_files store m w = let x = m w (store.files w) in (store.put x.0 w, x.1)

abbrev pub unsupported : Error
unsupported = errorf "publish target cannot retire previous deliveries"

module _ {W : Type 0} (store : FileStore W) (sha256 quote : String → String)
    (id path : String) where
  unfoldable pub filesystem_effects : Effects W → Effects W
  unfolding on_files filesystem_target publishing_record deliver_file retire_file
  filesystem_effects E = record E {
    target_of = λ w. filesystem_target sha256 (store.files w).disk id path;
    publishing_record =
        λ c i. observe (λ w. publishing_record id "filesystem" (store.answers w) c i);
    deliver = λ scope c i owned. on_files store (λ w.
        let k = store.answers w in
        deliver_file (sha256 "") id "filesystem" k c i owned k.cancelled);
    retire = λ old candidates related owned scope.
        on_files store (λ w. retire_file path (store.answers w) old candidates owned);
  }

  -- `ErrRetirementUnsupported` is all that this adapter's `Retire` answers.
  unfoldable pub drop_effects : Effects W → Effects W
  unfolding on_files drop_target publishing_record drop_file
  drop_effects E = record E {
    target_of = λ w. drop_target sha256 quote (store.files w).disk id path;
    publishing_record = λ c i. observe (λ w. publishing_record id "drop" (store.answers w) c i);
    deliver = λ scope c i owned. on_files store (λ w.
        let k = store.answers w in
        drop_file (sha256 "") id "drop" k c i (quote id) path owned k.cancelled);
    retire = λ old candidates related owned scope. return (some unsupported);
  }
