-- ===== src/Publish/Filesystem/Untouched.antt =====
-- A file whose bytes nobody owns, beside the deliveries and retirements of the file adapters.
use serial_sync.Base.{
  String, false, Option, none, some, List, ◌≡◌, refl, sym, ◌∙◌, ◌≢◌, false≢true, ◌≟◌, ≟→≡,
  Bool-cases, inl, inr, All, IfOk, IfOk-imp, contains, is_empty, Error, Result, ok, err,
}
use serial_sync.Base.Stateful.{
  Step, observe, Holds, Keeps, Holds-return, Holds-observe, Holds-when, Holds-bind, Keeps-bind,
}
use serial_sync.Domain.Library.{PublishCandidate, PublishRecordBundle}
use serial_sync.Publish.Target.{
  DeliveryIdentity, Disk, Entry, absent, regular, check_filesystem_destination,
}
use serial_sync.Publish.Destination.{check_unowned, file_hash-regular}
use serial_sync.Publish.Filesystem.Copy.{
  Files, Calls, set, write, unless, move, discard, stage, clean_up, create, copy_file,
}
use serial_sync.Publish.Filesystem.Deliver.{
  after_copy, place_file, after_dir, deliver_file, drop_file, remove_file, retire_checked,
  retire_file,
}
use serial_sync.Publish.Filesystem.Atomic.{moments}

-- The file is there with these bytes at every moment.
abbrev pub HasAlways : String → String → Files → Type 0
HasAlways path sha f = All (λ d. d path ≡ regular sha) (moments f)

-- The temporary file is not the one at the path.
abbrev pub TempApart : String → Calls → Type 0
TempApart path k = IfOk (λ temp. (path ≟ temp) ≡ false) k.temp

module _ (path sha : String) where
  set-keeps :
      (d : Disk) (other : String) (e : Entry)
      → (path ≟ other) ≡ false
      → d path ≡ regular sha
      → set d other e path ≡ regular sha
  unfolding set
  set-keeps d other e n h = rw n h

  write-Keeps :
      (change : Disk → Disk)
      → ((d : Disk) → d path ≡ regular sha → change d path ≡ regular sha)
      → Keeps (HasAlways path sha) (write change)
  unfolding Holds write
  write-Keeps change keeps f (h, hs) = ((keeps f.disk h, (h, hs)), tt)

  move-keeps :
      (from to : String) (d : Disk)
      → (path ≟ from) ≡ false
      → (path ≟ to) ≡ false
      → d path ≡ regular sha
      → move from to d path ≡ regular sha
  unfolding move
  move-keeps from to d n m h =
      set-keeps (set d to (d from)) from absent n (set-keeps d to (d from) m h)

  discard-keeps :
      (failure : Option Error) (other : String) (d : Disk)
      → (path ≟ other) ≡ false
      → d path ≡ regular sha
      → discard failure other d path ≡ regular sha
  unfolding discard
  discard-keeps none other d n h = set-keeps d other absent n h
  discard-keeps (some e) other d n h = h

  unless-Keeps :
      (failure : Option Error) (rest : Step Files (Option Error))
      → Keeps (HasAlways path sha) rest
      → Keeps (HasAlways path sha) (unless failure rest)
  unfolding unless
  unless-Keeps none rest h = h
  unless-Keeps (some e) rest h = Holds-return _ _ _ tt

  module _ (empty : String) (k : Calls) (src dst expected : String)
      (other : (path ≟ dst) ≡ false) where
    create-Keeps :
        (temp : Result String)
        → IfOk (λ name. (path ≟ name) ≡ false) temp
        → Keeps (HasAlways path sha) (create empty k src dst expected temp)
    unfolding create stage clean_up
    create-Keeps (err e) apart = Holds-return _ _ _ tt
    create-Keeps (ok temp) apart =
        Keeps-bind _ _ _ _ (write-Keeps _ (λ d h. set-keeps d temp _ apart h)) (λ created.
          Keeps-bind _ _ _ _
            (Keeps-bind _ _ _ _ (write-Keeps _ (λ d h. set-keeps d temp _ apart h)) (λ written.
              unless-Keeps _ _ (
                Keeps-bind _ _ _ _ (write-Keeps _ (λ d h. move-keeps temp dst d apart other h))
                  (λ moved. Holds-return _ _ _ tt))))
            (λ failure.
              Keeps-bind _ _ _ _ (write-Keeps _ (λ d h. discard-keeps k.clean temp d apart h))
                (λ removed. Holds-return _ _ _ tt)))

    pub copy_file-Keeps :
        TempApart path k → Keeps (HasAlways path sha) (copy_file empty k src dst expected)
    unfolding copy_file
    copy_file-Keeps apart = unless-Keeps _ _ (create-Keeps k.temp apart)

-- The bytes are of a file, and not among those that the caller owns.
abbrev pub Foreign : String → List String → Type 0
Foreign sha owned = (is_empty sha ≡ false) × (contains owned sha ≡ false)

empty-not : (s : String) → is_empty s ≡ false → s ≢ ""
empty-not s h e = absurd (false≢true (sym h ∙ (rw e refl)))

IfOk-const : {A : Type 0} (Q : Type 0) (m : Result A) → Q → IfOk (λ a. Q) m
IfOk-const Q (err e) q = tt
IfOk-const Q (ok a) q = q

module _ (path sha : String) (owned : List String) (foreign : Foreign sha owned) where
  -- The check refuses the place of foreign bytes.
  check-refuses :
      (d : Disk)
      → d path ≡ regular sha
      → IfOk (λ current. ⊥) (check_filesystem_destination d path owned)
  check-refuses d h =
      rw
        (check_unowned d path owned sha (file_hash-regular d path sha h) (empty-not sha foreign.0)
          foreign.1)
        tt

  checked_apart :
      (place : String) (d : Disk)
      → d path ≡ regular sha
      → IfOk (λ current. (path ≟ place) ≡ false) (check_filesystem_destination d place owned)
  checked_apart place d h = elim (Bool-cases (path ≟ place)) [
    | inl e ↦
        rw (← ≟→≡ path place e)
          (IfOk-imp (λ current. ⊥) _ _ (λ current x. absurd x) (check-refuses d h))
    | inr n ↦ IfOk-const _ _ n
  ]

  observed_apart :
      (place : String)
      → Holds
          (HasAlways path sha)
          (IfOk (λ current. (path ≟ place) ≡ false))
          (observe (λ f. check_filesystem_destination f.disk place owned))
  observed_apart place = Holds-observe _ _ _ (λ f h. checked_apart place f.disk h.0)

  module _ (empty id kind : String) (k : Calls) (apart : TempApart path k) (c : PublishCandidate)
      (i : DeliveryIdentity) where
    after_copy-Keeps :
        (failure : Option Error)
        → Keeps (HasAlways path sha) (after_copy empty id kind k c i failure)
    unfolding after_copy
    after_copy-Keeps (some e) = Holds-return _ _ _ tt
    after_copy-Keeps none = Holds-return _ _ _ tt

    place_file-Keeps :
        (checked : Result String)
        → IfOk (λ current. (path ≟ i.ref) ≡ false) checked
        → Keeps (HasAlways path sha) (place_file empty id kind k c i checked)
    unfolding place_file
    place_file-Keeps (err e) n = Holds-return _ _ _ tt
    place_file-Keeps (ok current) n =
        Holds-when _ _ _ _ _ (λ same. Holds-return _ _ _ tt)
          (λ other.
            Keeps-bind _ _ _ _
              (copy_file-Keeps path sha empty k c.artifact.storage_ref i.ref c.artifact.sha256 n
                apart)
              (λ failure. after_copy-Keeps failure))

    after_dir-Keeps :
        (failure : Option Error)
        → Keeps (HasAlways path sha) (after_dir empty id kind k c i owned failure)
    unfolding after_dir
    after_dir-Keeps (some e) = Holds-return _ _ _ tt
    after_dir-Keeps none =
        Holds-bind _ _ _ _ _ (observed_apart i.ref) (λ checked n. place_file-Keeps checked n)

    -- `FilesystemTarget.Deliver` leaves the bytes of a file alone that are not empty and that the
    -- caller does not own, at every moment, unless the temporary file is that file.
    pub deliver_file-Keeps :
        (cancelled : Option Error)
        → Keeps (HasAlways path sha) (deliver_file empty id kind k c i owned cancelled)
    unfolding deliver_file
    deliver_file-Keeps (some e) = Holds-return _ _ _ tt
    deliver_file-Keeps none = after_dir-Keeps k.make_dir

    -- So does `DropTarget.Deliver`.
    pub drop_file-Keeps :
        (quoted root : String) (cancelled : Option Error)
        → Keeps (HasAlways path sha) (drop_file empty id kind k c i quoted root owned cancelled)
    unfolding drop_file
    drop_file-Keeps quoted root (some e) = Holds-return _ _ _ tt
    drop_file-Keeps quoted root none =
        Holds-when _ _ _ _ _ (λ gone. Holds-return _ _ _ tt) (λ there. after_dir-Keeps k.make_dir)

  module _ (root : String) (k : Calls) where
    remove_file-Keeps :
        (place : String) (failure : Option Error)
        → (path ≟ place) ≡ false
        → Keeps (HasAlways path sha) (remove_file root k place failure)
    unfolding remove_file
    remove_file-Keeps place (some e) n = Holds-return _ _ _ tt
    remove_file-Keeps place none n =
        Keeps-bind _ _ _ _ (write-Keeps path sha _ (λ d h. set-keeps path sha d place absent n h))
          (λ removed. Holds-return _ _ _ tt)

    retire_checked-Keeps :
        (place : String) (checked : Result String)
        → IfOk (λ current. (path ≟ place) ≡ false) checked
        → Keeps (HasAlways path sha) (retire_checked root k place checked)
    unfolding retire_checked
    retire_checked-Keeps place (err e) n = Holds-return _ _ _ tt
    retire_checked-Keeps place (ok current) n =
        Holds-when _ _ _ _ _ (λ gone. Holds-return _ _ _ tt)
          (λ there. remove_file-Keeps place k.remove n)

    pub retire_file-Keeps :
        (old : PublishRecordBundle) (candidates : List PublishCandidate)
        → Keeps (HasAlways path sha) (retire_file root k old candidates owned)
    unfolding retire_file
    retire_file-Keeps old candidates =
        Holds-when _ _ _ _ _ (λ replaced. Holds-return _ _ _ tt)
          (λ alone.
            Holds-bind _ _ _ _ _ (observed_apart old.record_.target_ref)
              (λ checked n. retire_checked-Keeps old.record_.target_ref checked n))
