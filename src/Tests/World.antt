-- ===== src/Tests/World.antt =====
-- A small world to run a delivery in: files, the ledger of the records written, random names, and the
-- pending delivery with the file of its plan.
use serial_sync.Base.{
  ℕ, ◌+◌, String, true, false, Option, none, some, List, [], ◌∷◌, ◌++◌, ◌≟◌, if◌then◌else◌, errorf,
  Result, ok, err,
}
use serial_sync.Base.Stateful.{return}
use serial_sync.Domain.Library.{PublishRecord}
use serial_sync.Publish.Target.{Disk, absent, regular}
use serial_sync.Publish.Exec.{exec_target}
use serial_sync.Publish.Filesystem.Copy.{Files, Calls}
use serial_sync.Delivery.Effects.{Effects, PendingPublish, NamedPlan}
use serial_sync.Delivery.FileEffects.{FileStore}

pub record World : Type 0 where
  pub files : Files
  pub ledger : List PublishRecord
  pub names : ℕ
  pub pending : Option PendingPublish
  pub plan_file : Option NamedPlan

abbrev pub digest : String → String
digest text = text

-- Every call succeeds, and the copied bytes have this hash.
abbrev pub calls : String → Calls
calls sha = record {
  cancelled = none;
  is_root_dir = true;
  make_dir = none;
  open_source = none;
  temp = ok "/lib/src/story/.serial-sync-1.tmp";
  copied = (sha, none);
  sync = none;
  close = none;
  rehash = none;
  chmod = none;
  rename = none;
  clean = none;
  open_dir = none;
  sync_dir = none;
  remove = none;
  uuid = "1";
  now = 7;
}

-- The temporary file's name is taken only where no file has it.
abbrev pub taken : Disk → Calls → Calls
taken disk k = elim (disk "/lib/src/story/.serial-sync-1.tmp") [
  | absent ↦ k
  | _ ↦ record k { temp = err (errorf "file exists") }
]

abbrev pub store : FileStore World
store = record {
  files = λ w. w.files;
  put = λ f w. record w { files = f };
  answers = λ w. taken w.files.disk (calls "sha2");
}

abbrev pub read_file : Option NamedPlan → Result NamedPlan
read_file none = err (errorf "no plan")
read_file (some plan) = ok plan

-- A hook that answers, a catalog that takes every record, no saved plan.
abbrev pub base : Effects World
base = record {
  target_of = λ w. exec_target digest digest 1 "lib" [];
  lifecycle_hook = false;
  run_hook = λ e. return none;
  new_uuid = λ w. (record w { names = w.names + 1 }, "uuid");
  now = return 7;
  publishing_record = λ c i. return none;
  deliver = λ scope c i owned. return (err (errorf "no adapter"));
  retire = λ old candidates related owned scope. return none;
  upsert_publish_record = λ r w. (record w { ledger = w.ledger ++ r ∷ [] }, none);
  list_publish_records = return (ok []);
  list_volume_editions = return (ok []);
  get_pending_publish = return (ok none);
  save_pending_publish = λ p. return none;
  complete_pending_publish = λ id. return none;
  read_delivery_plan = λ p. return (err (errorf "no plan"));
  write_delivery_plan = λ plan. return (ok "/plans/1.json");
  compact = λ plan. return none;
}

-- The same with one place for a pending delivery, and one for its plan.
abbrev pub planning : Effects World
planning = record base {
  get_pending_publish = λ w. (w, ok w.pending);
  save_pending_publish = λ p w. (record w { pending = some p }, none);
  complete_pending_publish = λ id w. (record w { pending = none }, none);
  read_delivery_plan = λ p w. (w, read_file w.plan_file);
  write_delivery_plan = λ plan w. (record w { plan_file = some plan }, ok "/plans/1.json");
}

-- The old file of the first release, and a file of the reader's own.
abbrev pub disk : Disk
disk path =
    if path ≟ "/lib/src/story/old.epub"
    then regular "sha1"
    else if path ≟ "/lib/src/story/notes.txt"
    then regular "sha9"
    else absent

abbrev pub world : World
world = record {
  files = record { disk = disk; past = [] };
  ledger = [];
  names = 0;
  pending = none;
  plan_file = none;
}
