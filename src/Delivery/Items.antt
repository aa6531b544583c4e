-- ===== src/Delivery/Items.antt =====
-- The items of a plan against its block messages.
use serial_sync.Base.{
  ℕ, String, ◌+◌, Bool, true, false, Option, none, some, List, [], ◌∷◌, ◌++◌, ◌≡◌, ◌≢◌, refl, arith,
  if◌then◌else◌, length, length-append, Error, Result, ok, err, if_cases, ok-bind_inv, ok-injective,
}
use serial_sync.Domain.Library.{PublishCandidate, PublishRecordBundle, VolumeEdition}
use serial_sync.Domain.Plans.{Action, add, replace, blocked, PublishItemResult}
use serial_sync.Publish.Target.{
  Target, DeliveryIdentity, Handoff, handoff_none, handoff_same, handoff_revised, Dependencies,
}
use serial_sync.Delivery.Candidate.{
  Planned, nothing_planned, initial_action, is_none, decide, scan_records, block_message, item_of,
  blocked_by, plan_candidate, plan_candidates,
}
use serial_sync.Delivery.Retire.{
  Retired, nothing_retired, required_by, waits_for, conflict_message, conflict_item, retire_item,
  settle, is_retirable, retirement_owned_hashes, retire_record, retire_records,
}
use serial_sync.Delivery.Plan.{Snapshot, DeliveryPlan, plan_ordered, plan_delivery}

abbrev pub is_blocked : Action → Bool
is_blocked a = elim a [ blocked ↦ true | _ ↦ false ]

abbrev is_error : Option Error → Bool
is_error e = elim e [ none ↦ false | some e ↦ true ]

-- How many items of a plan are blocked.
abbrev pub count_blocked : List PublishItemResult → ℕ
count_blocked [] = 0
count_blocked (i ∷ items) = (if is_blocked i.action then 1 else 0) + count_blocked items

count_blocked-append :
    (xs ys : List PublishItemResult)
    → count_blocked (xs ++ ys) ≡ count_blocked xs + count_blocked ys
count_blocked-append [] ys = omega arith
count_blocked-append (x ∷ xs) ys = omega (arith, count_blocked-append xs ys)

-- An identity with an error carries no hand-off.
abbrev pub NoHandoffOnError : Target → Type 0
NoHandoffOnError pt =
    (c : PublishCandidate) (records : List PublishRecordBundle)
    → (pt.identity c records).1 ≢ none
    → (pt.identity c records).0.handoff ≡ handoff_none

-- Reading the records blocks nothing.
scan_records-not_blocked :
    (pt : Target) (c : PublishCandidate) (i : DeliveryIdentity) (records : List PublishRecordBundle)
    (a : Action)
    → is_blocked a ≡ false
    → is_blocked (scan_records pt c i records a).0 ≡ false
unfolding scan_records
scan_records-not_blocked pt c i [] a h = h
scan_records-not_blocked pt c i (r ∷ records) a h = ground (
  arith,
  scan_records-not_blocked pt c i records a h,
  scan_records-not_blocked pt c i records replace refl,
)

-- A candidate is blocked exactly when its identity is an error.
decide_blocked :
    (pt : Target) (c : PublishCandidate) (found : DeliveryIdentity × Option Error)
    (records : List PublishRecordBundle)
    → (found.1 ≢ none → found.0.handoff ≡ handoff_none)
    → is_blocked (decide pt c found records).0 ≡ is_error found.1
unfolding decide initial_action
decide_blocked pt c (i, some e) records h = rw (h (λ k. cc))
decide_blocked pt c (i, none) records h =
    if_cases (λ (x : Action × List String). is_blocked x.0 ≡ false) (is_none i.handoff) _ _
      (λ _. scan_records-not_blocked pt c i records add refl) (λ k. handed i.handoff k)
  where
    handed : (h : Handoff) → is_none h ≡ false → is_blocked (initial_action none h) ≡ false
    handed handoff_none k = cc
    handed handoff_same k = refl
    handed handoff_revised k = refl

item_of_blocked :
    (pt : Target) (c : PublishCandidate) (records : List PublishRecordBundle)
    → NoHandoffOnError pt
    → (if is_blocked (item_of pt c records).action then 1 else 0) ≡ length (blocked_by pt c records)
unfolding item_of blocked_by
item_of_blocked pt c records h =
    rw (decide_blocked pt c (pt.identity c records) records (h c records))
      (matched (pt.identity c records).1)
  where
    matched :
        (e : Option Error)
        → (if is_error e then 1 else 0)
          ≡ length (elim e [ none ↦ [] | some e ↦ block_message pt e ∷ [] ])
    matched none = refl
    matched (some e) = refl

module _ (pt : Target) (records : List PublishRecordBundle) (well : NoHandoffOnError pt) where
  plan_candidates_balanced :
      (cs : List PublishCandidate) (p : Planned)
      → count_blocked p.items ≡ length p.blocked
      → count_blocked (plan_candidates pt records cs p).items
        ≡ length (plan_candidates pt records cs p).blocked
  unfolding plan_candidates
  plan_candidates_balanced [] p h = h
  plan_candidates_balanced (c ∷ cs) p h =
      plan_candidates_balanced cs (plan_candidate pt records p c) (
        omega (
          arith,
          h,
          item_of_blocked pt c records well,
          count_blocked-append p.items (item_of pt c records ∷ []),
          length-append p.blocked (blocked_by pt c records),
        ))

module _ (pt : Target) (candidates : List PublishCandidate) (records : List PublishRecordBundle)
    (volumes : List VolumeEdition) (desired covered : List String) where
  settle_balanced :
      (found : Result String) (old : PublishRecordBundle) (r : Retired)
      → count_blocked r.items ≡ length r.blocked
      → count_blocked (settle pt candidates records volumes desired covered found old r).items
        ≡ length (settle pt candidates records volumes desired covered found old r).blocked
  unfolding settle
  settle_balanced (err e) old r h = omega (
    arith,
    h,
    count_blocked-append r.items (conflict_item pt old ∷ []),
    length-append r.blocked (conflict_message pt old ∷ []),
  )
  settle_balanced (ok current) old r h = omega (
    arith,
    h,
    count_blocked-append r.items
        (retire_item pt (waits_for (required_by volumes old) candidates) old ∷ []),
  )

  retire_records_balanced :
      (olds : List PublishRecordBundle) (r : Retired)
      → count_blocked r.items ≡ length r.blocked
      → count_blocked (retire_records pt candidates records volumes desired covered olds r).items
        ≡ length (retire_records pt candidates records volumes desired covered olds r).blocked
  unfolding retire_records retire_record
  retire_records_balanced [] r h = h
  retire_records_balanced (old ∷ olds) r h = retire_records_balanced olds _ (
      if_cases (λ (s : Retired). count_blocked s.items ≡ length s.blocked)
        (is_retirable pt desired covered volumes old)
        (retire_record pt candidates records volumes desired covered old r) r
        (λ _.
          settle_balanced
            (pt.check_destination old.record_.target_ref (retirement_owned_hashes records old)) old
            r h)
        (λ _. h))

plan_ordered_balanced :
    (rebuild : Bool) (pt : Target) (candidates : List PublishCandidate) (snapshot : Snapshot)
    (ordered : List PublishCandidate) (dependencies : Dependencies)
    → NoHandoffOnError pt
    → count_blocked (plan_ordered rebuild pt candidates snapshot ordered dependencies).items
      ≡ length (plan_ordered rebuild pt candidates snapshot ordered dependencies).blocked
unfolding plan_ordered
plan_ordered_balanced rebuild pt candidates snapshot ordered dependencies well =
    let p = plan_candidates pt snapshot.records candidates nothing_planned in
    if_cases (λ (s : Retired). count_blocked (p.items ++ s.items) ≡ length (p.blocked ++ s.blocked))
      pt.capabilities.retires
      (retire_records pt candidates snapshot.records snapshot.volumes p.desired p.covered
        snapshot.records nothing_retired)
      nothing_retired
      (λ _.
        joined
          (retire_records pt candidates snapshot.records snapshot.volumes p.desired p.covered
            snapshot.records nothing_retired)
          (retire_records_balanced pt candidates snapshot.records snapshot.volumes p.desired
            p.covered snapshot.records nothing_retired refl))
      (λ _. joined nothing_retired refl)
  where
    joined :
        (s : Retired)
        → count_blocked s.items ≡ length s.blocked
        → count_blocked
            ((plan_candidates pt snapshot.records candidates nothing_planned).items ++ s.items)
          ≡ length (
              (plan_candidates pt snapshot.records candidates nothing_planned).blocked ++ s.blocked)
    joined s h = omega (
      arith,
      h,
      plan_candidates_balanced pt snapshot.records well candidates nothing_planned refl,
      count_blocked-append (plan_candidates pt snapshot.records candidates nothing_planned).items
          s.items,
      length-append (plan_candidates pt snapshot.records candidates nothing_planned).blocked
          s.blocked,
    )

-- If the adapter never asks for a hand-off beside an error, a plan has exactly as many blocked items
-- as block messages.
pub plan_delivery_balanced :
    (rebuild : Bool) (pt : Target) (candidates : List PublishCandidate) (snapshot : Snapshot)
    {plan : DeliveryPlan}
    → NoHandoffOnError pt
    → plan_delivery rebuild pt candidates snapshot ≡ ok plan
    → count_blocked plan.items ≡ length plan.blocked
unfolding plan_delivery
plan_delivery_balanced rebuild pt candidates snapshot well h =
    let (found, _, e) = ok-bind_inv (pt.reorder candidates snapshot.records snapshot.volumes) _ h in
    rw (← ok-injective e)
      (plan_ordered_balanced rebuild pt candidates snapshot found.0 found.1 well)
