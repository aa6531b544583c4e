-- ===== src/Delivery/Foreign.antt =====
-- A delivery beside a file whose bytes are no artifact's.
use serial_sync.Base.{
  String, Bool, false, List, [], ◌∷◌, ◌++◌, ◌≡◌, refl, ◌≟◌, contains, contains-append, All, IfOk,
  IfOk-imp, Bool-cases, ≟→≡, inl, inr, is_empty, arith,
}
use serial_sync.Base.Stateful.{Step, Holds, Keeps, Holds-return, Holds-observe}
use serial_sync.Domain.Library.{PublishCandidate, PublishRecordBundle}
use serial_sync.Publish.Target.{Disk, absent, regular, owned_hashes_at}
use serial_sync.Publish.Filesystem.Copy.{Files}
use serial_sync.Publish.Filesystem.Untouched.{
  HasAlways, TempApart, Foreign, deliver_file-Keeps, drop_file-Keeps, retire_file-Keeps,
}
use serial_sync.Delivery.Retire.{owned_siblings, retirement_owned_hashes}
use serial_sync.Delivery.Plan.{Snapshot}
use serial_sync.Delivery.Effects.{Effects}
use serial_sync.Delivery.Execute.{Run, execute_delivery}
use serial_sync.Delivery.Execute.Respects.{IsQuiet, Respects, Closed, Always}
use serial_sync.Delivery.Execute.Attempted.{execute_delivery-Holds}
use serial_sync.Delivery.FileEffects.{FileStore, on_files, filesystem_effects, drop_effects}

-- A candidate, and a record, of other bytes.
abbrev pub OtherCandidate : String → PublishCandidate → Type 0
OtherCandidate sha c = (c.artifact.sha256 ≟ sha) ≡ false

abbrev pub OtherRecord : String → PublishRecordBundle → Type 0
OtherRecord sha r = (r.artifact.sha256 ≟ sha) ≡ false

owned_hashes_at-other :
    (sha : String) (records : List PublishRecordBundle) (ref : String)
    → All (OtherRecord sha) records
    → contains (owned_hashes_at records ref) sha ≡ false
unfolding contains owned_hashes_at
owned_hashes_at-other sha [] ref h = refl
owned_hashes_at-other sha (r ∷ records) ref (h, hs) =
    ground (arith, owned_hashes_at-other sha records ref hs)

owned_siblings-other :
    (sha : String) (old : PublishRecordBundle) (records : List PublishRecordBundle)
    → All (OtherRecord sha) records
    → contains (owned_siblings old records) sha ≡ false
unfolding contains owned_siblings
owned_siblings-other sha old [] h = refl
owned_siblings-other sha old (r ∷ records) (h, hs) =
    ground (arith, owned_siblings-other sha old records hs)

delivered-Foreign :
    (sha : String) (c : PublishCandidate) (records : List PublishRecordBundle) (ref : String)
    → is_empty sha ≡ false
    → OtherCandidate sha c
    → All (OtherRecord sha) records
    → Foreign sha (owned_hashes_at records ref ++ c.artifact.sha256 ∷ [])
unfolding contains
delivered-Foreign sha c records ref e h hs = (
  e,
  rw (contains-append (owned_hashes_at records ref) (c.artifact.sha256 ∷ []) sha)
      (rw (owned_hashes_at-other sha records ref hs) (rw h refl)),
)

retired-Foreign :
    (sha : String) (old : PublishRecordBundle) (records : List PublishRecordBundle)
    → is_empty sha ≡ false
    → OtherRecord sha old
    → All (OtherRecord sha) records
    → Foreign sha (retirement_owned_hashes records old)
unfolding contains retirement_owned_hashes
retired-Foreign sha old records e h hs =
    (e, rw h (ground (arith, owned_siblings-other sha old records hs)))

-- The file of the state has these bytes at every moment.
abbrev pub IsThere : {W : Type 0} → FileStore W → String → String → W → Type 0
IsThere store path sha w = HasAlways path sha (store.files w)

-- The store gives back what was put, and a temporary file has a name that no file has.
pub record IsStore {W : Type 0} (store : FileStore W) : Type 0 where
  pub files_put : (f : Files) (w : W) → store.files (store.put f w) ≡ f
  pub fresh : (w : W) → IfOk (λ temp. (store.files w).disk temp ≡ absent) (store.answers w).temp

absent-apart :
    (d : Disk) (path sha temp : String)
    → d path ≡ regular sha
    → d temp ≡ absent
    → (path ≟ temp) ≡ false
absent-apart d path sha temp h g = elim (Bool-cases (path ≟ temp)) [
  | inl e ↦ let same = ≟→≡ path temp e in absurd (cc)
  | inr n ↦ n
]

module _ {W : Type 0} (store : FileStore W) (law : IsStore store) (path sha : String) where
  temp-apart : (w : W) → IsThere store path sha w → TempApart path (store.answers w)
  temp-apart w h =
      IfOk-imp _ _ _ (λ temp g. absent-apart (store.files w).disk path sha temp h.0 g) (law.fresh w)

  on_files-Keeps :
      {A : Type 0} (m : W → Step Files A)
      → ((w : W) → IsThere store path sha w → Keeps (HasAlways path sha) (m w))
      → Keeps (IsThere store path sha) (on_files store m)
  unfolding Holds on_files
  on_files-Keeps m keeps w h =
      (rw (law.files_put (m w (store.files w)).0 w) (keeps w h (store.files w) h).0, tt)

-- What is asked of the other operations does not change with the adapter.
IsQuiet-adapter :
    {W : Type 0} {P : W → Type 0} {C : PublishCandidate → Type 0} {R : PublishRecordBundle → Type 0}
    (E A : Effects W)
    → IsQuiet E P C R
    → IsQuiet
        (record E {
          target_of = A.target_of;
          publishing_record = A.publishing_record;
          deliver = A.deliver;
          retire = A.retire;
        })
        P
        C
        R
IsQuiet-adapter E A quiet = record {
  hook = quiet.hook;
  uuid = quiet.uuid;
  clock = quiet.clock;
  upsert = quiet.upsert;
  list_records = quiet.list_records;
  list_editions = quiet.list_editions;
  get_pending = quiet.get_pending;
  save_pending = quiet.save_pending;
  complete_pending = quiet.complete_pending;
  read_plan = quiet.read_plan;
  write_plan = quiet.write_plan;
  compaction = quiet.compaction;
}

-- No outcome is refused.
Always-Closed : (dry : Bool) → Closed dry Always
Always-Closed dry = record {
  on_failed = λ item o h q. tt;
  on_skipped = λ item o h q. tt;
  on_published = λ item o h q. tt;
  on_blocked = λ items o q. tt;
}

module _ {W : Type 0} (store : FileStore W) (law : IsStore store) (path sha : String)
    (nonempty : is_empty sha ≡ false) (sha256 quote : String → String) (id root : String)
    (E : Effects W)
    (quiet : IsQuiet E (IsThere store path sha) (OtherCandidate sha) (OtherRecord sha)) where
  filesystem-Respects :
      Respects
        (filesystem_effects store sha256 quote id root E)
        (IsThere store path sha)
        (OtherCandidate sha)
        (OtherRecord sha)
  unfolding filesystem_effects
  filesystem-Respects = record {
    quiet = IsQuiet-adapter E (filesystem_effects store sha256 quote id root E) quiet;
    ledger = λ c i. Holds-observe _ _ _ (λ w h. tt);
    delivery = λ scope c i records h hs. on_files-Keeps store law path sha _ (λ w there.
        deliver_file-Keeps path sha _ (delivered-Foreign sha c records i.ref nonempty h hs)
          (sha256 "") id "filesystem" (store.answers w) (temp-apart store law path sha w there) c i
          (store.answers w).cancelled);
    retirement = λ old candidates related records scope h hs.
        on_files-Keeps store law path sha _ (λ w there.
          retire_file-Keeps path sha _ (retired-Foreign sha old records nonempty h hs) root
            (store.answers w) old candidates);
  }

  drop-Respects :
      Respects
        (drop_effects store sha256 quote id root E)
        (IsThere store path sha)
        (OtherCandidate sha)
        (OtherRecord sha)
  unfolding drop_effects
  drop-Respects = record {
    quiet = IsQuiet-adapter E (drop_effects store sha256 quote id root E) quiet;
    ledger = λ c i. Holds-observe _ _ _ (λ w h. tt);
    delivery = λ scope c i records h hs. on_files-Keeps store law path sha _ (λ w there.
        drop_file-Keeps path sha _ (delivered-Foreign sha c records i.ref nonempty h hs) (sha256 "")
          id "drop" (store.answers w) (temp-apart store law path sha w there) c i (quote id) root
          (store.answers w).cancelled);
    retirement = λ old candidates related records scope h hs. Holds-return _ _ _ tt;
  }

  module _ (run : Run) (snapshot : Snapshot) (known : All (OtherRecord sha) snapshot.records)
      (chosen : All (OtherCandidate sha) run.selected) (w : W)
      (there : IsThere store path sha w) where
    -- A file with bytes that are no artifact's, neither of the selected candidates nor of the records
    -- and saved plans that the catalog gives, is there unchanged at every moment of a delivery by the
    -- filesystem adapter: no delivery and no retirement touches it, wherever it lies. The catalog, the
    -- hook and the plan files must leave it alone, and a temporary file has a new name.
    pub filesystem_untouched :
        IsThere store path sha
          (execute_delivery (filesystem_effects store sha256 quote id root E) run snapshot w).0
    unfolding Holds
    filesystem_untouched =
        (execute_delivery-Holds filesystem-Respects run (Always-Closed run.dry) chosen snapshot
          known tt w there).0

    -- The same of the drop adapter.
    pub drop_untouched :
        IsThere store path sha
          (execute_delivery (drop_effects store sha256 quote id root E) run snapshot w).0
    unfolding Holds
    drop_untouched =
        (execute_delivery-Holds drop-Respects run (Always-Closed run.dry) chosen snapshot known tt w
          there).0
