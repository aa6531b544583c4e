-- ===== src/Tests/Execute.antt =====
-- Runs of the executor: a renamed chapter is delivered and its old file is retired, beside a file of
-- the reader's own; and the regrouped volume, in its order.
use serial_sync.Base.{
  contains, String, true, false, none, some, [], ◌∷◌, ◌≡◌, refl, ok, err, errorf, IfOk,
}
use serial_sync.Base.FilePath.{join}
use serial_sync.Base.Stateful.{when◌then◌else◌, ◌>>=◌, observe, Holds, Keeps, return}
use serial_sync.Publish.Target.{
  owned_hashes_at, check_filesystem_destination, file_hash, Disk, Entry, absent, regular, irregular,
  unreadable,
}
use serial_sync.Publish.Filesystem.{filesystem_target, ref}
use serial_sync.Publish.Filesystem.Copy.{Calls, copy_file}
use serial_sync.Publish.Filesystem.Atomic.{IsAtomic, started, copy_file-IsAtomic}
use serial_sync.Delivery.Effects.{Effects, NamedPlan, PendingPublish}
use serial_sync.Delivery.Outcome.{no_outcome}
use serial_sync.Delivery.Deliver.{deliver_candidate, item_by_id, deliver_all}
use serial_sync.Delivery.FileEffects.{FileStore, filesystem_effects}
use serial_sync.Delivery.Foreign.{
  IsStore, IsThere, OtherCandidate, OtherRecord, filesystem_untouched,
}
use serial_sync.Delivery.Execute.{Run, execute_delivery}
use serial_sync.Delivery.Execute.Respects.{IsQuiet}
use serial_sync.Delivery.Execute.Accounted.{Accounted, execute_delivery-Accounted}
use serial_sync.Delivery.Execute.DryRun.{dry_run-Keeps}
use serial_sync.Delivery.Execute.Gated.{Follows, waits, deliver_all-Gated}
use serial_sync.Tests.Data.{one_file, chapter, new_artifact, snapshot}
use serial_sync.Delivery.Execute.Live.{Succeeds, done, puts, IsLive, deliver_all-Live}
use serial_sync.Tests.Reorder.{reordered_files, edition, both, filed, one, two, needed}
use serial_sync.Tests.World.{World, world, disk, store, base, calls, taken, digest, planning}

abbrev lib : Effects World
lib = filesystem_effects store digest digest "lib" "/lib" base

abbrev run : Run
run = record {
  run_id = "run";
  sources = [];
  scope = record { source_id = ""; series_id = ""; rebuild = false };
  pt = filesystem_target digest disk "lib" "/lib";
  signature = "";
  marshal = λ c. c.artifact.id;
  marshal_all = λ texts. "";
  dry = false;
  selected = chapter "r1" new_artifact ∷ [];
}

copy_file-IsAtomic_example :
    IsAtomic "/lib/new.epub" "sha2"
      (ok "/lib/src/story/.serial-sync-1.tmp")
      none
      disk
      (copy_file "" (calls "sha2") "/art/a2" "/lib/new.epub" "sha2" (started disk))
copy_file-IsAtomic_example =
    copy_file-IsAtomic "" (calls "sha2") "/art/a2" "/lib/new.epub" "sha2" disk (refl, refl)

execute_delivery-Accounted_example : Accounted (execute_delivery lib run snapshot world).1.0
execute_delivery-Accounted_example = execute_delivery-Accounted lib run snapshot world refl

-- The dry run of the same delivery: the ledger stays as it is.
abbrev dry_run : Run
dry_run = record run { dry = true }

ledger_kept : Keeps (λ (w : World). w.ledger ≡ []) lib.new_uuid
unfolding Holds filesystem_effects
ledger_kept w h = (h, tt)

dry_run-Keeps_example :
    Holds (λ (w : World). w.ledger ≡ []) (λ x. x.1 ≡ none) (execute_delivery lib dry_run snapshot)
dry_run-Keeps_example = dry_run-Keeps lib (λ w. w.ledger ≡ []) dry_run refl snapshot ledger_kept

abbrev gated_plan : NamedPlan
gated_plan = record {
  persisted = true;
  payload_ref = "/plans/1.json";
  id = "delivery_1";
  event_scope = "delivery_1";
  signature = "";
  plan = record {
    maintenance = false;
    candidates = one ∷ two ∷ [];
    items = [];
    ordered = "a" ∷ "b" ∷ [];
    dependencies = needed;
    identities = [];
    retirements = [];
    blocked = [];
  };
}

deliver_all-Gated_example :
    Follows
      (waits gated_plan)
      []
      (deliver_all lib run.pt false gated_plan []
        (two ∷ one ∷ [])
        (record { outcome = no_outcome; delivered = [] })
        world).1.0
deliver_all-Gated_example =
    deliver_all-Gated lib run.pt gated_plan [] (two ∷ one ∷ []) no_outcome world

abbrev notes : String
notes = "/lib/src/story/notes.txt"

temp_fresh : (d : Disk) → IfOk (λ temp. d temp ≡ absent) (taken d (calls "sha2")).temp
temp_fresh d = fresh_if (d "/lib/src/story/.serial-sync-1.tmp") refl
  where
    fresh_if :
        (e : Entry)
        → d "/lib/src/story/.serial-sync-1.tmp" ≡ e
        → IfOk
            (λ temp. d temp ≡ absent)
            (elim e as (λ _. Calls) [
              | absent ↦ calls "sha2"
              | _ ↦ record (calls "sha2") { temp = err (errorf "file exists") }
            ]).temp
    fresh_if absent h = h
    fresh_if (regular sha) h = tt
    fresh_if irregular h = tt
    fresh_if (unreadable e) h = tt

store-IsStore : IsStore store
store-IsStore = record { files_put = λ f w. refl; fresh = λ w. temp_fresh w.files.disk }

notes_quiet : IsQuiet base (IsThere store notes "sha9") (OtherCandidate "sha9") (OtherRecord "sha9")
unfolding Holds return
notes_quiet = record {
  hook = λ e w h. (h, tt);
  uuid = λ w h. (h, tt);
  clock = λ w h. (h, tt);
  upsert = λ r w h. (h, tt);
  list_records = λ w h. (h, tt);
  list_editions = λ w h. (h, tt);
  get_pending = λ w h. (h, tt);
  save_pending = λ p w h. (h, tt);
  complete_pending = λ id w h. (h, tt);
  read_plan = λ p w h. (h, tt);
  write_plan = λ plan w h. (h, tt);
  compaction = λ plan w h. (h, tt);
}

filesystem_untouched_example :
    IsThere store notes "sha9" (execute_delivery lib run snapshot world).0
filesystem_untouched_example =
    filesystem_untouched store store-IsStore notes "sha9" refl digest digest "lib" "/lib" base
      notes_quiet run snapshot (refl, tt) (refl, tt) world (refl, tt)

-- The regrouped volume on files: the operating system copies the bytes of the chapter whose turn it is.
abbrev turns : FileStore World
turns = record store {
  answers = λ w. elim (w.files.disk "/lib/src/story/two.epub") [
    | absent ↦ calls "sha2"
    | _ ↦ calls "sha1"
  ];
}

abbrev on_disk : Effects World
on_disk = filesystem_effects turns digest digest "lib" "/lib" base

-- The old volume stands where the file of the first chapter goes.
abbrev volume_disk : Disk
volume_disk = one_file "/lib/src/story/one.epub" "sha0"

abbrev volume_world : World
volume_world = record world { files = record { disk = volume_disk; past = [] } }

both_succeed : Succeeds on_disk gated_plan filed (two ∷ one ∷ []) volume_world
unfolding filesystem_effects deliver_candidate ◌>>=◌ observe return item_by_id copy_file
    owned_hashes_at check_filesystem_destination file_hash contains join when◌then◌else◌
both_succeed =
    puts two (one ∷ []) volume_world _ refl refl refl refl
      (puts one [] _ _ refl refl refl refl (done _))

deliver_all-Live_example :
    IsLive both no_outcome
      (deliver_all on_disk run.pt false gated_plan filed
        (two ∷ one ∷ [])
        (record { outcome = no_outcome; delivered = [] })
        volume_world).1
unfolding item_by_id
deliver_all-Live_example =
    deliver_all-Live on_disk run.pt gated_plan filed "lib" (ref "/lib") both (edition ∷ [])
      (two ∷ one ∷ []) no_outcome volume_world reordered_files (tt, (tt, tt)) both_succeed

abbrev IsFile : String → NamedPlan → World → Type 0
IsFile path plan w = w.plan_file ≡ some plan

abbrev IsPending : PendingPublish → NamedPlan → World → Type 0
IsPending p plan w = (w.pending ≡ some p) × (w.plan_file ≡ some plan)

abbrev planned : Effects World
planned = filesystem_effects store digest digest "lib" "/lib" planning
