-- ===== src/Delivery/Execute/Live.antt =====
-- The executor's loop in a pass in which the calls for each candidate succeed: the order of `Reorder`
-- against the gate of the loop.
use serial_sync.Base.{
  String, Bool, true, false, ◌||◌, Option, none, some, List, [], ◌∷◌, ◌≡◌, refl, ◌∙◌, ap, ◌≟◌, all,
  IfSome, contains, All, All-imp, Within, Bool-cases, inl, inr, Error, Result, ok, err,
  ok-injective, false≢true,
}
use serial_sync.Base.Stateful.{Step, return, observe, ◌>>=◌, when◌then◌else◌}
use serial_sync.Domain.Library.{PublishCandidate, PublishRecord, PublishRecordBundle, VolumeEdition}
use serial_sync.Domain.Plans.{PublishItemResult}
use serial_sync.Publish.Target.{Target, DeliveryIdentity, depends_on}
use serial_sync.Publish.Filesystem.Order.{candidate_ids, reorder}
use serial_sync.Publish.Reorder.Visited.{seen_after, IsDeliveryOrder}
use serial_sync.Publish.Reorder.Sorted.{reorder-IsReordered}
use serial_sync.Delivery.Items.{is_blocked}
use serial_sync.Delivery.Effects.{Effects, NamedPlan}
use serial_sync.Delivery.Outcome.{Outcome, add_skipped, add_published}
use serial_sync.Delivery.Deliver.{
  item_by_id, is_held, is_unchanged, Progress, after_record, after_delivery, deliver_candidate,
  deliver_now, deliver_planned, deliver_identified, is_ready, is_item_blocked, deliver_one,
  unless_aborted, deliver_all,
}

abbrev IsFreeItem : PublishItemResult → Type 0
IsFreeItem item = (is_blocked item.action ≡ false) × (is_held item.action ≡ false)

-- The plan neither blocks the candidate nor holds it.
abbrev pub IsFree : List PublishItemResult → PublishCandidate → Type 0
IsFree items c = IfSome IsFreeItem (item_by_id items c.artifact.id none)

all-true :
    (test : String → Bool) (xs : List String) → All (λ x. test x ≡ true) xs → all test xs ≡ true
all-true test [] h = refl
all-true test (x ∷ xs) (h, hs) = rw h (all-true test xs hs)

-- The plan has the candidate as unchanged.
abbrev is_skipped : Option PublishItemResult → Bool
is_skipped none = false
is_skipped (some item) = is_unchanged item.action

-- `deliverCandidate` under the identity that the adapter has for the candidate now.
abbrev pub delivery :
    {W : Type 0}
    → Effects W
    → NamedPlan
    → List PublishRecordBundle
    → PublishCandidate
    → Step W (Result PublishRecord)
delivery E plan records c w =
    deliver_candidate E plan.event_scope c ((E.target_of w).identity c records).0 records w

-- From the state on, each call for the candidates succeeds when its turn comes: the adapter identifies
-- the candidate, and if the plan does not have it as unchanged, the adapter delivers it and the
-- catalog takes the record.
pub data Succeeds {W : Type 0} (E : Effects W) (plan : NamedPlan)
    (records : List PublishRecordBundle) : List PublishCandidate → W → Type 0 where
  done : (w : W) → Succeeds E plan records [] w
  skips :
      (c : PublishCandidate) (cs : List PublishCandidate) (w : W)
      → ((E.target_of w).identity c records).1 ≡ none
      → is_skipped (item_by_id plan.plan.items c.artifact.id none) ≡ true
      → Succeeds E plan records cs w
      → Succeeds E plan records (c ∷ cs) w
  puts :
      (c : PublishCandidate) (cs : List PublishCandidate) (w : W) (r : PublishRecord)
      → ((E.target_of w).identity c records).1 ≡ none
      → is_skipped (item_by_id plan.plan.items c.artifact.id none) ≡ false
      → (delivery E plan records c w).1 ≡ ok r
      → (E.upsert_publish_record r (delivery E plan records c w).0).1 ≡ none
      → Succeeds E plan records cs (E.upsert_publish_record r (delivery E plan records c w).0).0
      → Succeeds E plan records (c ∷ cs) w

-- The step has put the candidate in place, and nothing has failed.
pub record Puts (id : String) (p : Progress) (x : Progress × Option Error) : Type 0 where
  pub goes_on : x.1 ≡ none
  pub in_place : x.0.delivered ≡ id ∷ p.delivered
  pub no_failure : x.0.outcome.failed ≡ p.outcome.failed

-- The step leaves the state, with the candidate in place.
abbrev Reaches : {W : Type 0} → W → String → Progress → W × (Progress × Option Error) → Type 0
Reaches w id p out = (out.0 ≡ w) × Puts id p out.1

-- All of them are in place.
record PutsAll (cs : List PublishCandidate) (p : Progress) (x : Progress × Option Error)
    : Type 0 where
  pub goes_on : x.1 ≡ none
  pub in_place : x.0.delivered ≡ seen_after p.delivered cs
  pub no_failure : x.0.outcome.failed ≡ p.outcome.failed

-- The loop has gone through with every candidate in place and no failure.
pub record IsLive (candidates : List PublishCandidate) (o : Outcome) (x : Progress × Option Error)
    : Type 0 where
  pub goes_on : x.1 ≡ none
  pub no_failure : x.0.outcome.failed ≡ o.failed
  pub all_in_place : Within x.0.delivered (candidate_ids candidates)

||_true_right : (b : Bool) → (b || true) ≡ true
||_true_right true = refl
||_true_right false = refl

module _ {W : Type 0} (E : Effects W) (pt : Target) (plan : NamedPlan)
    (records : List PublishRecordBundle) where
  module _ (c : PublishCandidate) (p : Progress) where
    after_record-Reaches :
        (r : PublishRecord) (failure : Option Error) (w : W)
        → failure ≡ none
        → Reaches w c.artifact.id p (after_record E pt false plan records c r p failure w)
    unfolding after_record add_published return
    after_record-Reaches r (some e) w h = absurd (cc)
    after_record-Reaches r none w h =
        (refl, record { goes_on = refl; in_place = refl; no_failure = refl })

    after_delivery-Reaches :
        (i : DeliveryIdentity) (found : Result PublishRecord) (r : PublishRecord) (w : W)
        → found ≡ ok r
        → (E.upsert_publish_record r w).1 ≡ none
        → Reaches
            (E.upsert_publish_record r w).0
            c.artifact.id
            p
            (after_delivery E pt false plan records c i p found w)
    unfolding after_delivery ◌>>=◌
    after_delivery-Reaches i (err e) r w h through = absurd (cc)
    after_delivery-Reaches i (ok s) r w h through =
        let same : s ≡ r = ok-injective h in
        rw same (after_record-Reaches r _ (E.upsert_publish_record r w).0 through)

    deliver_now-Reaches :
        (i : DeliveryIdentity) (r : PublishRecord) (w : W)
        → (deliver_candidate E plan.event_scope c i records w).1 ≡ ok r
        → (E.upsert_publish_record r (deliver_candidate E plan.event_scope c i records w).0).1
          ≡ none
        → Reaches
            (E.upsert_publish_record r (deliver_candidate E plan.event_scope c i records w).0).0
            c.artifact.id
            p
            (deliver_now E pt false plan records c i p w)
    unfolding deliver_now ◌>>=◌ when◌then◌else◌
    deliver_now-Reaches i r w h through = after_delivery-Reaches i _ r _ h through

    put_item-Reaches :
        (i : DeliveryIdentity) (item : Option PublishItemResult) (w' w : W)
        → is_skipped item ≡ false
        → IfSome IsFreeItem item
        → Reaches w' c.artifact.id p (deliver_now E pt false plan records c i p w)
        → Reaches w' c.artifact.id p (deliver_planned E pt false plan records c i p item w)
    unfolding deliver_planned when◌then◌else◌
    put_item-Reaches i none w' w put free h = h
    put_item-Reaches i (some item) w' w put free h = rw (put, free.1) h

    skip_item-Reaches :
        (i : DeliveryIdentity) (item : Option PublishItemResult) (w : W)
        → is_skipped item ≡ true
        → Reaches w c.artifact.id p (deliver_planned E pt false plan records c i p item w)
    unfolding deliver_planned when◌then◌else◌ add_skipped return
    skip_item-Reaches i none w skip = absurd (cc)
    skip_item-Reaches i (some item) w skip =
        rw skip (refl, record { goes_on = refl; in_place = refl; no_failure = refl })

    identified-Reaches :
        (found : DeliveryIdentity × Option Error) (w' w : W)
        → found.1 ≡ none
        → Reaches w' c.artifact.id p (
            deliver_planned E pt false plan records c found.0 p
              (item_by_id plan.plan.items c.artifact.id none)
              w)
        → Reaches w' c.artifact.id p (deliver_identified E pt false plan records c p found w)
    unfolding deliver_identified
    identified-Reaches (i, none) w' w h r = r
    identified-Reaches (i, some e) w' w h r = absurd (cc)

    not_blocked :
        (item : Option PublishItemResult)
        → IfSome IsFreeItem item
        → is_item_blocked E pt false plan records item ≡ false
    unfolding is_item_blocked
    not_blocked none free = refl
    not_blocked (some item) free = free.0

    deliver_one-Reaches :
        (w' w : W)
        → Within p.delivered (depends_on plan.plan.dependencies c.artifact.id)
        → IsFree plan.plan.items c
        → Reaches w' c.artifact.id p
            (deliver_identified E pt false plan records c p ((E.target_of w).identity c records) w)
        → Reaches w' c.artifact.id p (deliver_one E pt false plan records c p w)
    unfolding deliver_one is_ready when◌then◌else◌ ◌>>=◌ observe
    deliver_one-Reaches w' w within free r =
        rw (all-true _ _ within, not_blocked (item_by_id plan.plan.items c.artifact.id none) free) r

  -- The step for the first candidate, and the state in which the others go on.
  first-Reaches :
      (c : PublishCandidate) (cs : List PublishCandidate) (p : Progress) (w : W)
      → Within p.delivered (depends_on plan.plan.dependencies c.artifact.id)
      → IsFree plan.plan.items c
      → Succeeds E plan records (c ∷ cs) w
      → (w' : W) × Reaches w' c.artifact.id p (deliver_one E pt false plan records c p w)
        × Succeeds E plan records cs w'
  first-Reaches c cs p w within free (skips _ _ _ found skip rest) = (
    w,
    deliver_one-Reaches c p w w within free
        (identified-Reaches c p _ w w found (skip_item-Reaches c p _ _ w skip)),
    rest,
  )
  first-Reaches c cs p w within free (puts _ _ _ r found put h through rest) = (
    _,
    deliver_one-Reaches c p _ w within free (
        identified-Reaches c p _ _ w found
          (put_item-Reaches c p _ _ _ w put free (deliver_now-Reaches c p _ r w h through))),
    rest,
  )

  unless_aborted-Reaches :
      (S : Progress × Option Error → Type 0) (w' : W) (id : String) (p : Progress)
      (rest : Progress → Step W (Progress × Option Error)) (out : W × (Progress × Option Error))
      → Reaches w' id p out
      → ((q : Progress)
          → q.delivered ≡ id ∷ p.delivered
          → q.outcome.failed ≡ p.outcome.failed
          → S (rest q w').1)
      → S (unless_aborted E pt false plan records rest out.1 out.0).1
  unfolding unless_aborted
  unless_aborted-Reaches S w' id p rest (w, (q, some e)) (same, h) k =
      let gone = h.goes_on in absurd (cc)
  unless_aborted-Reaches S w' id p rest (w, (q, none)) (same, h) k =
      rw same (k q h.in_place h.no_failure)

  deliver_all-PutsAll :
      (cs : List PublishCandidate) (p : Progress) (w : W)
      → IsDeliveryOrder (depends_on plan.plan.dependencies) p.delivered cs
      → All (IsFree plan.plan.items) cs
      → Succeeds E plan records cs w
      → PutsAll cs p (deliver_all E pt false plan records cs p w).1
  unfolding deliver_all ◌>>=◌ return
  deliver_all-PutsAll [] p w order free smooth = record {
    goes_on = refl;
    in_place = refl;
    no_failure = refl;
  }
  deliver_all-PutsAll (c ∷ cs) p w (once, within, order) (f, fs) smooth =
      let (w', reached, rest) = first-Reaches c cs p w within f smooth in
      unless_aborted-Reaches (PutsAll (c ∷ cs) p) w' c.artifact.id p
        (deliver_all E pt false plan records cs) (deliver_one E pt false plan records c p w) reached
        (λ q here same.
          let r = deliver_all-PutsAll cs q w' (rw here order) fs rest in
          record {
            goes_on = r.goes_on;
            in_place = r.in_place ∙ ap (λ seen. seen_after seen cs) here;
            no_failure = r.no_failure ∙ same;
          })

seen_after-grows :
    (cs : List PublishCandidate) (seen : List String) (x : String)
    → contains seen x ≡ true
    → contains (seen_after seen cs) x ≡ true
unfolding contains
seen_after-grows [] seen x h = h
seen_after-grows (c ∷ cs) seen x h =
    seen_after-grows cs (c.artifact.id ∷ seen) x (rw h (||_true_right (c.artifact.id ≟ x)))

seen_after-contains :
    (cs : List PublishCandidate) (seen : List String) (x : String)
    → contains (candidate_ids cs) x ≡ true
    → contains (seen_after seen cs) x ≡ true
unfolding contains candidate_ids
seen_after-contains [] seen x h = absurd (false≢true h)
seen_after-contains (c ∷ cs) seen x h = elim (Bool-cases (c.artifact.id ≟ x)) [
  | inl e ↦ seen_after-grows cs (c.artifact.id ∷ seen) x (rw e refl)
  | inr n ↦ seen_after-contains cs (c.artifact.id ∷ seen) x (rw n at h)
]

-- If the plan's order and dependencies are those of `Reorder`, the plan neither blocks nor holds a
-- candidate of the order, and each call of the adapter and of the catalog for the candidates succeeds
-- when its turn comes, then the loop is not aborted, nothing waits or fails, and every candidate given
-- to `Reorder` is in place at the end.
pub deliver_all-Live :
    {W : Type 0} (E : Effects W) (pt : Target) (plan : NamedPlan)
    (records : List PublishRecordBundle) (target_id : String) (ref : PublishCandidate → String)
    (candidates : List PublishCandidate) (volumes : List VolumeEdition)
    (ordered : List PublishCandidate) (o : Outcome) (w : W)
    → reorder target_id ref candidates records volumes ≡ ok (ordered, plan.plan.dependencies)
    → All (IsFree plan.plan.items) ordered
    → Succeeds E plan records ordered w
    → IsLive candidates o
        (deliver_all E pt false plan records ordered (record { outcome = o; delivered = [] }) w).1
deliver_all-Live E pt plan records target_id ref candidates volumes ordered o w found free smooth =
    let (order, known, all_there) =
      reorder-IsReordered target_id ref candidates records volumes (ordered, plan.plan.dependencies)
        found in
    let r =
      deliver_all-PutsAll E pt plan records ordered (record { outcome = o; delivered = [] }) w order
        free smooth in
    record {
      goes_on = r.goes_on;
      no_failure = r.no_failure;
      all_in_place = rw (r.in_place) (
          All-imp _ _ (λ x k. seen_after-contains ordered [] x k) (candidate_ids candidates)
            all_there);
    }
