-- ===== src/Delivery/Execute/Accounted.antt =====
-- The numbers of an outcome against its items.
use serial_sync.Base.{
  ℕ, ◌+◌, String, Bool, true, false, List, [], ◌∷◌, ◌++◌, ◌≡◌, refl, arith, if◌then◌else◌, if_cases,
  sym, append-nil,
}
use serial_sync.Base.Stateful.{Holds}
use serial_sync.Domain.Plans.{Action, PublishItemResult}
use serial_sync.Delivery.Items.{is_blocked}
use serial_sync.Delivery.Plan.{Snapshot}
use serial_sync.Delivery.Effects.{Effects}
use serial_sync.Delivery.Outcome.{Outcome, add_failed, add_skipped, add_published, add_blocked}
use serial_sync.Delivery.Execute.{Run, execute_delivery}
use serial_sync.Delivery.Execute.Respects.{
  always, All-Always, Closed, is_done, is_passed, is_failure,
}
use serial_sync.Delivery.Execute.Attempted.{execute_delivery-Holds}

-- How many items have such an action.
unfoldable pub count_of : (Action → Bool) → List PublishItemResult → ℕ
count_of test [] = 0
count_of test (i ∷ items) = (if test i.action then 1 else 0) + count_of test items

-- The artifacts of the items with such an action.
unfoldable pub artifacts_of : (Action → Bool) → List PublishItemResult → List String
artifacts_of test [] = []
artifacts_of test (i ∷ items) =
    let rest = artifacts_of test items in if test i.action then i.artifact_id ∷ rest else rest

-- Each number of the outcome counts its items, and the artifacts are those of the published ones.
pub record Accounted (o : Outcome) : Type 0 where
  pub published_count : o.published ≡ count_of is_done o.items
  pub skipped_count : o.skipped ≡ count_of is_passed o.items
  pub failed_count : o.failed ≡ count_of is_failure o.items
  pub published_artifacts : o.artifacts ≡ artifacts_of is_done o.items

count_of-append :
    (test : Action → Bool) (xs : List PublishItemResult) (i : PublishItemResult)
    → count_of test (xs ++ i ∷ []) ≡ count_of test xs + (if test i.action then 1 else 0)
unfolding count_of
count_of-append test [] i = omega arith
count_of-append test (x ∷ xs) i = omega (arith, count_of-append test xs i)

artifacts_of-append :
    (test : Action → Bool) (xs : List PublishItemResult) (i : PublishItemResult)
    → artifacts_of test (xs ++ i ∷ [])
      ≡ artifacts_of test xs ++ (if test i.action then i.artifact_id ∷ [] else [])
unfolding artifacts_of
artifacts_of-append test [] i = refl
artifacts_of-append test (x ∷ xs) i = ground (arith, artifacts_of-append test xs i)

-- An action is of one kind at most.
done_alone : (a : Action) → is_done a ≡ true → (is_passed a ≡ false) × (is_failure a ≡ false)
done_alone a h = ground arith

passed_alone : (a : Action) → is_passed a ≡ true → (is_done a ≡ false) × (is_failure a ≡ false)
passed_alone a h = ground arith

failure_alone : (a : Action) → is_failure a ≡ true → (is_done a ≡ false) × (is_passed a ≡ false)
failure_alone a h = ground arith

blocked-is_failure : (a : Action) → is_blocked a ≡ true → is_failure a ≡ true
blocked-is_failure a h = ground arith

-- What one more item does to a count, and to the artifacts.
module _ (test : Action → Bool) (xs : List PublishItemResult) (i : PublishItemResult) where
  one_more :
      (n : ℕ) → test i.action ≡ true → n ≡ count_of test xs → n + 1 ≡ count_of test (xs ++ i ∷ [])
  one_more n t h = let e = count_of-append test xs i in omega (arith, h, (rw t at e))

  none_more :
      (n : ℕ) → test i.action ≡ false → n ≡ count_of test xs → n ≡ count_of test (xs ++ i ∷ [])
  none_more n t h = let e = count_of-append test xs i in omega (arith, h, (rw t at e))

  one_artifact :
      (ids : List String)
      → test i.action ≡ true
      → ids ≡ artifacts_of test xs
      → ids ++ i.artifact_id ∷ [] ≡ artifacts_of test (xs ++ i ∷ [])
  one_artifact ids t h = rw (artifacts_of-append test xs i) (rw t (rw h refl))

  no_artifact :
      (ids : List String)
      → test i.action ≡ false
      → ids ≡ artifacts_of test xs
      → ids ≡ artifacts_of test (xs ++ i ∷ [])
  no_artifact ids t h =
      rw (artifacts_of-append test xs i) (rw t (rw h (sym (append-nil (artifacts_of test xs)))))

module _ (item : PublishItemResult) (o : Outcome) (a : Accounted o) where
  Accounted-failed : is_failure item.action ≡ true → Accounted (add_failed item o)
  unfolding add_failed
  Accounted-failed h =
      let (d, p) = failure_alone item.action h in
      record {
        published_count = none_more is_done o.items item o.published d a.published_count;
        skipped_count = none_more is_passed o.items item o.skipped p a.skipped_count;
        failed_count = one_more is_failure o.items item o.failed h a.failed_count;
        published_artifacts = no_artifact is_done o.items item o.artifacts d a.published_artifacts;
      }

  Accounted-skipped : is_passed item.action ≡ true → Accounted (add_skipped item o)
  unfolding add_skipped
  Accounted-skipped h =
      let (d, f) = passed_alone item.action h in
      record {
        published_count = none_more is_done o.items item o.published d a.published_count;
        skipped_count = one_more is_passed o.items item o.skipped h a.skipped_count;
        failed_count = none_more is_failure o.items item o.failed f a.failed_count;
        published_artifacts = no_artifact is_done o.items item o.artifacts d a.published_artifacts;
      }

  Accounted-published : is_done item.action ≡ true → Accounted (add_published item o)
  unfolding add_published
  Accounted-published h =
      let (p, f) = done_alone item.action h in
      record {
        published_count = one_more is_done o.items item o.published h a.published_count;
        skipped_count = none_more is_passed o.items item o.skipped p a.skipped_count;
        failed_count = none_more is_failure o.items item o.failed f a.failed_count;
        published_artifacts = one_artifact is_done o.items item o.artifacts h a.published_artifacts;
      }

Accounted-blocked :
    (items : List PublishItemResult) (o : Outcome)
    → Accounted o
    → Accounted (add_blocked false items o)
unfolding add_blocked add_failed
Accounted-blocked [] o a = a
Accounted-blocked (item ∷ items) o a = Accounted-blocked items _ (
    if_cases Accounted (is_blocked item.action) (add_failed item o) o
      (λ h. Accounted-failed item o a (blocked-is_failure item.action h)) (λ _. a))

Accounted-Closed : Closed false Accounted
Accounted-Closed = record {
  on_failed = λ item o h a. Accounted-failed item o a h;
  on_skipped = λ item o h a. Accounted-skipped item o a h;
  on_published = λ item o h a. Accounted-published item o a h;
  on_blocked = Accounted-blocked;
}

-- The numbers of a delivery that is no dry run count what its items say, aborted or not, and its
-- artifacts are those of the published items, in their order.
pub execute_delivery-Accounted :
    {W : Type 0} (E : Effects W) (run : Run) (snapshot : Snapshot) (w : W)
    → run.dry ≡ false
    → Accounted (execute_delivery E run snapshot w).1.0
unfolding Holds count_of artifacts_of
execute_delivery-Accounted E run snapshot w wet =
    let closed : Closed run.dry Accounted = rw wet Accounted-Closed in
    (execute_delivery-Holds (always E) run closed (All-Always run.selected) snapshot
      (All-Always snapshot.records)
      (record {
        published_count = refl;
        skipped_count = refl;
        failed_count = refl;
        published_artifacts = refl;
      })
      w tt).1
