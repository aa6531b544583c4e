-- ===== src/Delivery/Execute/Delivered.antt =====
-- The loop over the order keeps what the operations keep.
use serial_sync.Base.{
  String, Bool, true, Option, none, some, List, [], ◌∷◌, ◌++◌, ◌≡◌, refl, ◌≟◌, All, IfSome,
  if_cases, arith, Error, Result, ok, err,
}
use serial_sync.Base.Stateful.{
  Step, Holds, Keeps, Holds-return, Holds-observe, Holds-when, Holds-bind, Keeps-bind,
}
use serial_sync.Domain.Library.{PublishCandidate, PublishRecord, PublishRecordBundle}
use serial_sync.Domain.Plans.{Action, PublishItemResult}
use serial_sync.Publish.Target.{Target, DeliveryIdentity, owned_hashes_at}
use serial_sync.Publish.Filesystem.Order.{by_id}
use serial_sync.Delivery.Effects.{Effects, NamedPlan}
use serial_sync.Delivery.Outcome.{Outcome, item_at}
use serial_sync.Delivery.Deliver.{
  in_order, is_held, Progress, write_pending, deliver_unless, deliver_checked, deliver_candidate,
  published_item, write_failure, after_record, after_delivery, deliver_now, deliver_planned,
  deliver_identified, deliver_one, unless_aborted, deliver_all,
}
use serial_sync.Delivery.Execute.Respects.{Respects, Closed, is_passed}

by_id-All :
    (C : PublishCandidate → Type 0) (cs : List PublishCandidate) (id : String)
    (found : Option PublishCandidate)
    → All C cs
    → IfSome C found
    → IfSome C (by_id cs id found)
unfolding by_id
by_id-All C [] id found h f = f
by_id-All C (c ∷ cs) id found (h, hs) f =
    by_id-All C cs id _ hs
      (if_cases (IfSome C) (c.artifact.id ≟ id) (some c) found (λ _. h) (λ _. f))

pub in_order-All :
    (C : PublishCandidate → Type 0) (cs : List PublishCandidate) (ids : List String)
    → All C cs
    → All C (in_order cs ids)
unfolding in_order
in_order-All C cs [] h = tt
in_order-All C cs (id ∷ ids) h =
    added (by_id cs id none) (in_order cs ids) (by_id-All C cs id none h tt)
      (in_order-All C cs ids h)
  where
    added :
        (found : Option PublishCandidate) (rest : List PublishCandidate)
        → IfSome C found
        → All C rest
        → All C (elim found [ none ↦ rest | some c ↦ c ∷ rest ])
    added none rest f r = r
    added (some c) rest f r = (f, r)

held-is_passed : (a : Action) → is_held a ≡ true → is_passed a ≡ true
held-is_passed a h = ground arith

module _ {W : Type 0} {E : Effects W} {P : W → Type 0} {C : PublishCandidate → Type 0}
    {R : PublishRecordBundle → Type 0} (law : Respects E P C R) where
  write_pending-Keeps : (pending : Option PublishRecord) → Keeps P (write_pending E pending)
  unfolding write_pending
  write_pending-Keeps none = Holds-return P _ none tt
  write_pending-Keeps (some r) = law.quiet.upsert r

  module _ (records : List PublishRecordBundle) (rs : All R records) (scope : String)
      (c : PublishCandidate) (hc : C c) where
    deliver_unless-Keeps :
        (i : DeliveryIdentity) (failure : Option Error)
        → Keeps P (
            deliver_unless E scope c i
              (owned_hashes_at records i.ref ++ c.artifact.sha256 ∷ [])
              failure)
    unfolding deliver_unless
    deliver_unless-Keeps i (some e) = Holds-return P _ (err e) tt
    deliver_unless-Keeps i none = law.delivery scope c i records hc rs

    deliver_checked-Keeps :
        (i : DeliveryIdentity) (checked : Result String)
        → Keeps P (
            deliver_checked E scope c i
              (owned_hashes_at records i.ref ++ c.artifact.sha256 ∷ [])
              checked)
    unfolding deliver_checked
    deliver_checked-Keeps i (err e) = Holds-return P _ (err e) tt
    deliver_checked-Keeps i (ok current) = Keeps-bind P _ _ _ (law.ledger c i) (λ pending.
        Keeps-bind P _ _ _ (write_pending-Keeps pending)
          (λ failure. deliver_unless-Keeps i failure))

    deliver_candidate-Keeps :
        (i : DeliveryIdentity) → Keeps P (deliver_candidate E scope c i records)
    unfolding deliver_candidate
    deliver_candidate-Keeps i =
        Keeps-bind P _ _ _ (Holds-observe P _ _ (λ w p. tt))
          (λ checked. deliver_checked-Keeps i checked)

  module _ {dry : Bool} {Q : Outcome → Type 0} (closed : Closed dry Q) (pt : Target)
      (plan : NamedPlan) (records : List PublishRecordBundle) (rs : All R records)
      (c : PublishCandidate) (hc : C c) where
    write_failure-Keeps :
        (i : DeliveryIdentity) (e : Error) → Keeps P (write_failure E pt dry plan records c i e)
    unfolding write_failure
    write_failure-Keeps i e =
        Holds-when P _ _ _ _ (λ _. Holds-return P _ tt tt)
          (λ _. Keeps-bind P _ _ _ (law.quiet.uuid) (λ uuid.
            Keeps-bind P _ _ _ (law.quiet.clock)
              (λ at. Keeps-bind P _ _ _ (law.quiet.upsert _) (λ dropped. Holds-return P _ tt tt))))

    after_record-Holds :
        (r : PublishRecord) (p : Progress) (failure : Option Error)
        → Q p.outcome
        → Holds P (λ x. Q x.0.outcome) (after_record E pt dry plan records c r p failure)
    unfolding after_record published_item
    after_record-Holds r p (some e) q = Holds-return P _ _ q
    after_record-Holds r p none q = Holds-return P _ _ (closed.on_published _ p.outcome refl q)

    after_delivery-Holds :
        (i : DeliveryIdentity) (p : Progress) (r : Result PublishRecord)
        → Q p.outcome
        → Holds P (λ x. Q x.0.outcome) (after_delivery E pt dry plan records c i p r)
    unfolding after_delivery item_at
    after_delivery-Holds i p (err e) q =
        Keeps-bind P _ _ _ (write_failure-Keeps i e)
          (λ written. Holds-return P _ _ (closed.on_failed _ p.outcome refl q))
    after_delivery-Holds i p (ok r) q =
        Keeps-bind P _ _ _ (law.quiet.upsert r) (λ failure. after_record-Holds r p failure q)

    deliver_now-Holds :
        (i : DeliveryIdentity) (p : Progress)
        → Q p.outcome
        → Holds P (λ x. Q x.0.outcome) (deliver_now E pt dry plan records c i p)
    unfolding deliver_now item_at
    deliver_now-Holds i p q =
        Holds-when P _ _ _ _ (λ _. Holds-return P _ _ (closed.on_published _ p.outcome refl q))
          (λ _.
            Keeps-bind P _ _ _ (deliver_candidate-Keeps records rs plan.event_scope c hc i)
              (λ r. after_delivery-Holds i p r q))

    deliver_planned-Holds :
        (i : DeliveryIdentity) (p : Progress) (item : Option PublishItemResult)
        → Q p.outcome
        → Holds P (λ x. Q x.0.outcome) (deliver_planned E pt dry plan records c i p item)
    unfolding deliver_planned item_at
    deliver_planned-Holds i p none q = deliver_now-Holds i p q
    deliver_planned-Holds i p (some item) q =
        Holds-when P _ _ _ _ (λ _. Holds-return P _ _ (closed.on_skipped _ p.outcome refl q))
          (λ _.
            Holds-when P _ _ _ _
              (λ h.
                Holds-return P _ _ (closed.on_skipped _ p.outcome (held-is_passed item.action h) q))
              (λ _. deliver_now-Holds i p q))

    deliver_identified-Holds :
        (p : Progress) (found : DeliveryIdentity × Option Error)
        → Q p.outcome
        → Holds P (λ x. Q x.0.outcome) (deliver_identified E pt dry plan records c p found)
    unfolding deliver_identified item_at
    deliver_identified-Holds p (i, none) q = deliver_planned-Holds i p _ q
    deliver_identified-Holds p (i, some e) q =
        Holds-when P _ _ _ _ (λ _. deliver_planned-Holds i p _ q)
          (λ _. Holds-return P _ _ (closed.on_failed _ p.outcome refl q))

    pub deliver_one-Holds :
        (p : Progress)
        → Q p.outcome
        → Holds P (λ x. Q x.0.outcome) (deliver_one E pt dry plan records c p)
    unfolding deliver_one item_at
    deliver_one-Holds p q =
        Holds-when P _ _ _ _ (λ _. Holds-return P _ _ (closed.on_failed _ p.outcome refl q))
          (λ _.
            Holds-when P _ _ _ _ (λ _. Holds-return P _ _ q)
              (λ _.
                Keeps-bind P _ _ _ (Holds-observe P _ _ (λ w h. tt))
                  (λ found. deliver_identified-Holds p found q)))

  module _ {dry : Bool} {Q : Outcome → Type 0} (closed : Closed dry Q) (pt : Target)
      (plan : NamedPlan) (records : List PublishRecordBundle) (rs : All R records) where
    unless_aborted-Holds :
        (rest : Progress → Step W (Progress × Option Error)) (x : Progress × Option Error)
        → Q x.0.outcome
        → ((p : Progress) → Q p.outcome → Holds P (λ y. Q y.0.outcome) (rest p))
        → Holds P (λ y. Q y.0.outcome) (unless_aborted E pt dry plan records rest x)
    unfolding unless_aborted
    unless_aborted-Holds rest (p, some e) q h = Holds-return P _ _ q
    unless_aborted-Holds rest (p, none) q h = h p q

    pub deliver_all-Holds :
        (cs : List PublishCandidate) (p : Progress)
        → All C cs
        → Q p.outcome
        → Holds P (λ x. Q x.0.outcome) (deliver_all E pt dry plan records cs p)
    unfolding deliver_all
    deliver_all-Holds [] p hs q = Holds-return P _ _ q
    deliver_all-Holds (c ∷ cs) p (h, hs) q =
        Holds-bind P _ _ _ _ (deliver_one-Holds closed pt plan records rs c h p q)
          (λ x qx. unless_aborted-Holds _ x qx (λ p' q'. deliver_all-Holds cs p' hs q'))
