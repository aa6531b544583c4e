-- ===== src/Delivery/Execute/Respects.antt =====
-- What has to hold of the executor's operations, and of an outcome's bookkeeping, for a delivery to
-- keep a property of the state and to establish one of the outcome.
use serial_sync.Base.{
  String, Bool, true, false, List, [], ◌∷◌, ◌++◌, ◌≡◌, All, IfOk, Result, ok, err,
}
use serial_sync.Base.Stateful.{Step, Keeps, Holds}
use serial_sync.Domain.Library.{PublishCandidate, PublishRecord, PublishRecordBundle}
use serial_sync.Domain.Plans.{
  Action, planned, published, skipped, held, failed, blocked, notification_failed,
  PublishItemResult,
}
use serial_sync.Publish.Target.{DeliveryIdentity, owned_hashes_at}
use serial_sync.Delivery.Retire.{retirement_owned_hashes}
use serial_sync.Delivery.Effects.{Effects, LifecycleEvent, PendingPublish, NamedPlan}
use serial_sync.Delivery.Outcome.{Outcome, add_failed, add_skipped, add_published, add_blocked}

-- Each operation but the adapter's keeps `P` of the state, and what the executor reads are candidates
-- with `C` and records with `R`.
pub record IsQuiet {W : Type 0} (E : Effects W) (P : W → Type 0) (C : PublishCandidate → Type 0)
    (R : PublishRecordBundle → Type 0) : Type 0 where
  pub hook : (e : LifecycleEvent) → Keeps P (E.run_hook e)
  pub uuid : Keeps P E.new_uuid
  pub clock : Keeps P E.now
  pub upsert : (r : PublishRecord) → Keeps P (E.upsert_publish_record r)
  pub list_records : Holds P (IfOk (All R)) E.list_publish_records
  pub list_editions : Keeps P E.list_volume_editions
  pub get_pending : Keeps P E.get_pending_publish
  pub save_pending : (p : PendingPublish) → Keeps P (E.save_pending_publish p)
  pub complete_pending : (id : String) → Keeps P (E.complete_pending_publish id)
  pub read_plan :
      (p : PendingPublish)
      → Holds P (IfOk (λ (saved : NamedPlan). All C saved.plan.candidates)) (E.read_delivery_plan p)
  pub write_plan : (plan : NamedPlan) → Keeps P (E.write_delivery_plan plan)
  pub compaction : (plan : NamedPlan) → Keeps P (E.compact plan)

-- The adapter keeps `P` as well, as long as it is asked for candidates with `C` and records with `R`,
-- in the way that the executor asks.
pub record Respects {W : Type 0} (E : Effects W) (P : W → Type 0) (C : PublishCandidate → Type 0)
    (R : PublishRecordBundle → Type 0) : Type 0 where
  pub quiet : IsQuiet E P C R
  pub ledger : (c : PublishCandidate) (i : DeliveryIdentity) → Keeps P (E.publishing_record c i)
  pub delivery :
      (scope : String) (c : PublishCandidate) (i : DeliveryIdentity)
      (records : List PublishRecordBundle)
      → C c
      → All R records
      → Keeps P (E.deliver scope c i (owned_hashes_at records i.ref ++ c.artifact.sha256 ∷ []))
  pub retirement :
      (old : PublishRecordBundle) (candidates related : List PublishCandidate)
      (records : List PublishRecordBundle) (scope : String)
      → R old
      → All R records
      → Keeps P (E.retire old candidates related (retirement_owned_hashes records old) scope)

abbrev pub is_done : Action → Bool
is_done a = elim a [ planned ↦ true | published ↦ true | _ ↦ false ]

abbrev pub is_passed : Action → Bool
is_passed a = elim a [ skipped ↦ true | held ↦ true | _ ↦ false ]

abbrev pub is_failure : Action → Bool
is_failure a = elim a [ failed ↦ true | blocked ↦ true | notification_failed ↦ true | _ ↦ false ]

-- `Q` survives each change of an outcome.
pub record Closed (dry : Bool) (Q : Outcome → Type 0) : Type 0 where
  pub on_failed :
      (item : PublishItemResult) (o : Outcome)
      → is_failure item.action ≡ true
      → Q o
      → Q (add_failed item o)
  pub on_skipped :
      (item : PublishItemResult) (o : Outcome)
      → is_passed item.action ≡ true
      → Q o
      → Q (add_skipped item o)
  pub on_published :
      (item : PublishItemResult) (o : Outcome)
      → is_done item.action ≡ true
      → Q o
      → Q (add_published item o)
  pub on_blocked :
      (items : List PublishItemResult) (o : Outcome) → Q o → Q (add_blocked dry items o)

-- Nothing is asked of it.
abbrev pub Always : {A : Type 0} → A → Type 0
Always a = Unit

pub All-Always : {A : Type 0} (xs : List A) → All Always xs
All-Always [] = tt
All-Always (x ∷ xs) = (tt, All-Always xs)

-- Every step keeps what always holds.
module _ {W A : Type 0} where
  pub Always-Holds : (m : Step W A) → Holds Always (λ a. Unit) m
  unfolding Holds
  Always-Holds m w p = (tt, tt)

  Always-IfOk : (Q : A → Type 0) (m : Step W (Result A)) → ((b : A) → Q b) → Holds Always (IfOk Q) m
  unfolding Holds
  Always-IfOk Q m h w p = (tt, checked (m w).1)
    where
      checked : (found : Result A) → IfOk Q found
      checked (err e) = tt
      checked (ok b) = h b

pub always : {W : Type 0} (E : Effects W) → Respects E Always Always Always
always E = record {
  quiet = record {
    hook = λ e. Always-Holds _;
    uuid = Always-Holds _;
    clock = Always-Holds _;
    upsert = λ r. Always-Holds _;
    list_records = Always-IfOk (All Always) _ All-Always;
    list_editions = Always-Holds _;
    get_pending = Always-Holds _;
    save_pending = λ p. Always-Holds _;
    complete_pending = λ id. Always-Holds _;
    read_plan = λ p. Always-IfOk _ _ (λ saved. All-Always saved.plan.candidates);
    write_plan = λ plan. Always-Holds _;
    compaction = λ plan. Always-Holds _;
  };
  ledger = λ c i. Always-Holds _;
  delivery = λ scope c i records h hs. Always-Holds _;
  retirement = λ old candidates related records scope h hs. Always-Holds _;
}
