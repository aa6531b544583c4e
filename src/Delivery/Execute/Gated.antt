-- ===== src/Delivery/Execute/Gated.antt =====
-- The order of a delivery: no file is put in place before those that it depends on.
use serial_sync.Base.{
  String, Bool, true, false, not, Option, none, some, List, [], ◌∷◌, ◌++◌, ◌≡◌, refl, ◌∙◌, ap,
  append_assoc, append-nil, sym, if◌then◌else◌, all, contains, All, Error, Result, ok, err, &&_true,
  arith, false≢true,
}
use serial_sync.Base.Stateful.{Step, Holds, Holds-return, Holds-when, Holds-bind, Keeps-bind}
use serial_sync.Domain.Library.{PublishCandidate, PublishRecord, PublishRecordBundle}
use serial_sync.Domain.Plans.{Action, published, skipped, PublishItemResult}
use serial_sync.Publish.Target.{Target, DeliveryIdentity, depends_on}
use serial_sync.Delivery.Effects.{Effects, NamedPlan}
use serial_sync.Delivery.Outcome.{Outcome, item_at, add_failed, add_skipped, add_published}
use serial_sync.Delivery.Deliver.{
  is_held, Progress, published_item, after_record, after_delivery, deliver_now, deliver_planned,
  deliver_identified, is_ready, deliver_one, unless_aborted, deliver_all,
}
use serial_sync.Delivery.Execute.Respects.{Always, Always-Holds}

abbrev pub is_in_place : Action → Bool
is_in_place a = elim a [ published ↦ true | skipped ↦ true | _ ↦ false ]

-- The artifacts in place after an item, and after items.
unfoldable pub seen_after : List String → PublishItemResult → List String
seen_after seen i = if is_in_place i.action then i.artifact_id ∷ seen else seen

unfoldable pub seen_after_all : List String → List PublishItemResult → List String
unfolding seen_after
seen_after_all seen [] = seen
seen_after_all seen (i ∷ items) = seen_after_all (seen_after seen i) items

-- Each item that says a file is in place stands behind such items for all that the file needs.
unfoldable pub IsGated : (String → List String) → List String → List PublishItemResult → Type 0
unfolding seen_after
IsGated wants seen [] = Unit
IsGated wants seen (i ∷ items) =
    (is_in_place i.action ≡ true → All (λ d. contains seen d ≡ true) (wants i.artifact_id))
    × IsGated wants (seen_after seen i) items

module _ (wants : String → List String) where
  IsGated-snoc :
      (seen : List String) (items : List PublishItemResult) (i : PublishItemResult)
      → IsGated wants seen items
      → (is_in_place i.action ≡ true
          → All (λ d. contains (seen_after_all seen items) d ≡ true) (wants i.artifact_id))
      → IsGated wants seen (items ++ i ∷ [])
  unfolding IsGated seen_after_all
  IsGated-snoc seen [] i g h = (h, tt)
  IsGated-snoc seen (j ∷ items) i (g, gs) h = (g, IsGated-snoc (seen_after seen j) items i gs h)

seen_after_all-snoc :
    (seen : List String) (items : List PublishItemResult) (i : PublishItemResult)
    → seen_after_all seen (items ++ i ∷ []) ≡ seen_after (seen_after_all seen items) i
unfolding seen_after_all
seen_after_all-snoc seen [] i = refl
seen_after_all-snoc seen (j ∷ items) i = seen_after_all-snoc (seen_after seen j) items i

all-All :
    (test : String → Bool) (xs : List String) → all test xs ≡ true → All (λ x. test x ≡ true) xs
all-All test [] h = tt
all-All test (x ∷ xs) h = let (a, b) = &&_true _ _ h in (a, all-All test xs b)

held-not_in_place : (a : Action) → is_held a ≡ true → is_in_place a ≡ false
held-not_in_place a h = ground arith

-- The items that the loop has added to those before it are gated, and what they put in place is what
-- the loop knows as delivered.
pub record Follows (wants : String → List String) (before : List PublishItemResult) (p : Progress)
    : Type 0 where
  pub added : List PublishItemResult
  pub items_added : p.outcome.items ≡ before ++ added
  pub gated : IsGated wants [] added
  pub delivered_added : p.delivered ≡ seen_after_all [] added

module _ (wants : String → List String) (before : List PublishItemResult) (p : Progress)
    (f : Follows wants before p) (i : PublishItemResult) where
  -- One more item.
  Follows-item :
      (q : Progress)
      → q.outcome.items ≡ p.outcome.items ++ i ∷ []
      → q.delivered ≡ seen_after p.delivered i
      → (is_in_place i.action ≡ true
          → All (λ d. contains p.delivered d ≡ true) (wants i.artifact_id))
      → Follows wants before q
  Follows-item q items delivered h = record {
    added = f.added ++ i ∷ [];
    items_added =
        items ∙ ap (λ xs. xs ++ i ∷ []) f.items_added ∙ append_assoc before f.added (i ∷ []);
    gated = IsGated-snoc wants [] f.added i f.gated (λ k. rw (← f.delivered_added) (h k));
    delivered_added =
        delivered
        ∙ ap (λ seen. seen_after seen i) f.delivered_added
        ∙ sym (seen_after_all-snoc [] f.added i);
  }

  -- An item that puts nothing in place.
  Follows-other :
      (q : Progress)
      → is_in_place i.action ≡ false
      → q.outcome.items ≡ p.outcome.items ++ i ∷ []
      → q.delivered ≡ p.delivered
      → Follows wants before q
  unfolding seen_after
  Follows-other q n items delivered =
      Follows-item q items (rw n delivered) (λ k. absurd (false≢true (sym n ∙ k)))

-- A published item puts its artifact in place, and so does a skipped one.
seen-published :
    (seen : List String) (i : PublishItemResult)
    → is_in_place i.action ≡ true
    → i.artifact_id ∷ seen ≡ seen_after seen i
unfolding seen_after
seen-published seen i h = rw h refl

unnegated : (b : Bool) → not b ≡ false → b ≡ true
unnegated b h = ground arith

-- What the plan makes a candidate wait for.
abbrev pub waits : NamedPlan → String → List String
waits plan = depends_on plan.plan.dependencies

module _ {W : Type 0} (E : Effects W) (pt : Target) (plan : NamedPlan)
    (records : List PublishRecordBundle) (before : List PublishItemResult) where
  abbrev Answers : Progress × Option Error → Type 0
  Answers x = Follows (waits plan) before x.0

  module _ (c : PublishCandidate) (p : Progress) (f : Follows (waits plan) before p)
      (ready : All (λ d. contains p.delivered d ≡ true) (waits plan c.artifact.id)) where
    after_record-Follows :
        (r : PublishRecord) (failure : Option Error)
        → Holds Always Answers (after_record E pt false plan records c r p failure)
    unfolding after_record published_item add_published
    after_record-Follows r (some e) = Holds-return _ _ _ f
    after_record-Follows r none = Holds-return _ _ _ (
        Follows-item (waits plan) before p f _ _ refl (seen-published p.delivered _ refl)
          (λ k. ready))

    after_delivery-Follows :
        (i : DeliveryIdentity) (r : Result PublishRecord)
        → Holds Always Answers (after_delivery E pt false plan records c i p r)
    unfolding after_delivery add_failed item_at
    after_delivery-Follows i (err e) =
        Keeps-bind _ _ _ _ (Always-Holds _)
          (λ written. Holds-return _ _ _ (Follows-other (waits plan) before p f _ _ refl refl refl))
    after_delivery-Follows i (ok r) =
        Keeps-bind _ _ _ _ (Always-Holds _) (λ failure. after_record-Follows r failure)

    deliver_now-Follows :
        (i : DeliveryIdentity) → Holds Always Answers (deliver_now E pt false plan records c i p)
    unfolding deliver_now
    deliver_now-Follows i =
        Holds-when _ _ _ _ _ (λ k. absurd (false≢true k))
          (λ _. Keeps-bind _ _ _ _ (Always-Holds _) (λ r. after_delivery-Follows i r))

    deliver_planned-Follows :
        (i : DeliveryIdentity) (item : Option PublishItemResult)
        → Holds Always Answers (deliver_planned E pt false plan records c i p item)
    unfolding deliver_planned add_skipped item_at
    deliver_planned-Follows i none = deliver_now-Follows i
    deliver_planned-Follows i (some item) =
        Holds-when _ _ _ _ _
          (λ _. Holds-return _ _ _ (
            Follows-item (waits plan) before p f _ _ refl (seen-published p.delivered _ refl)
              (λ k. ready)))
          (λ _.
            Holds-when _ _ _ _ _
              (λ h. Holds-return _ _ _ (
                Follows-other (waits plan) before p f _ _ (held-not_in_place item.action h) refl
                  refl))
              (λ _. deliver_now-Follows i))

    deliver_identified-Follows :
        (found : DeliveryIdentity × Option Error)
        → Holds Always Answers (deliver_identified E pt false plan records c p found)
    unfolding deliver_identified add_failed item_at
    deliver_identified-Follows (i, none) = deliver_planned-Follows i _
    deliver_identified-Follows (i, some e) =
        Holds-when _ _ _ _ _ (λ k. absurd (false≢true k))
          (λ _. Holds-return _ _ _ (Follows-other (waits plan) before p f _ _ refl refl refl))

  deliver_one-Follows :
      (c : PublishCandidate) (p : Progress)
      → Follows (waits plan) before p
      → Holds Always Answers (deliver_one E pt false plan records c p)
  unfolding deliver_one add_failed item_at is_ready
  deliver_one-Follows c p f =
      Holds-when _ _ _ _ _
        (λ _. Holds-return _ _ _ (Follows-other (waits plan) before p f _ _ refl refl refl))
        (λ ready.
          Holds-when _ _ _ _ _ (λ _. Holds-return _ _ _ f)
            (λ _.
              Keeps-bind _ _ _ _ (Always-Holds _) (λ found.
                deliver_identified-Follows c p f (all-All _ _ (unnegated _ ready)) found)))

  unless_aborted-Follows :
      (rest : Progress → Step W (Progress × Option Error)) (x : Progress × Option Error)
      → Answers x
      → ((p : Progress) → Follows (waits plan) before p → Holds Always Answers (rest p))
      → Holds Always Answers (unless_aborted E pt false plan records rest x)
  unfolding unless_aborted
  unless_aborted-Follows rest (p, some e) f h = Holds-return _ _ _ f
  unless_aborted-Follows rest (p, none) f h = h p f

  deliver_all-Follows :
      (cs : List PublishCandidate) (p : Progress)
      → Follows (waits plan) before p
      → Holds Always Answers (deliver_all E pt false plan records cs p)
  unfolding deliver_all
  deliver_all-Follows [] p f = Holds-return _ _ _ f
  deliver_all-Follows (c ∷ cs) p f =
      Holds-bind _ _ _ _ _ (deliver_one-Follows c p f)
        (λ x g. unless_aborted-Follows _ x g (λ q h. deliver_all-Follows cs q h))

-- The loop over the plan's order, started with nothing delivered, adds items in which every file that
-- is said to be published or skipped stands behind such an item for each artifact that the plan makes
-- it wait for; whatever fails in between, and whether the run is aborted or not.
pub deliver_all-Gated :
    {W : Type 0} (E : Effects W) (pt : Target) (plan : NamedPlan)
    (records : List PublishRecordBundle) (cs : List PublishCandidate) (o : Outcome) (w : W)
    → Follows
        (waits plan)
        o.items
        (deliver_all E pt false plan records cs (record { outcome = o; delivered = [] }) w).1.0
unfolding Holds IsGated seen_after_all
deliver_all-Gated E pt plan records cs o w =
    (deliver_all-Follows E pt plan records o.items cs _
      (record {
        added = [];
        items_added = sym (append-nil o.items);
        gated = tt;
        delivered_added = refl;
      })
      w tt).1
