-- ===== src/Delivery/Justified.antt =====
-- Why a delivered record may be let go: what a retirement of `plan_delivery` guarantees.
use serial_sync.Base.{
  String, Bool, true, false, List, [], ◌∷◌, ◌≡◌, ◌≢◌, ◌⊎◌, inl, inr, refl, sym, ap, ◌∙◌, false≢true,
  ◌≟◌, arith, if◌then◌else◌, all, All, All-append, All-imp, In, In-append_inv, all-contains-All,
  contains, contains→In, contains-append, if_cases, not-true, &&_true, eq_iff, Result, ok, err,
  ok-bind_inv, ok-injective,
}
use serial_sync.Domain.Library.{
  PublishCandidate, PublishRecordBundle, VolumeEdition, is_published, release_ids,
}
use serial_sync.Publish.Target.{Target, Dependencies}
use serial_sync.Delivery.Candidate.{
  Planned, nothing_planned, covered_by, desired_of, plan_candidate, plan_candidates,
}
use serial_sync.Delivery.Retire.{
  PlanRetirement, Retired, nothing_retired, complete_after, is_complete, required_by, related_to,
  retirement_owned_hashes, retirement_of, is_retirable, settle, retire_records,
}
use serial_sync.Delivery.Plan.{Snapshot, DeliveryPlan, plan_ordered, plan_delivery}

-- Some candidate stands for the release.
abbrev pub Covered : List PublishCandidate → String → Type 0
Covered candidates id = (c : PublishCandidate) × In c candidates × In id (covered_by c)

-- What a delivered record holds: the members of the last edition with its artifact, or its release.
abbrev pub holds_after : String → List VolumeEdition → List String → List String
holds_after artifact_id [] held = held
holds_after artifact_id (v ∷ volumes) held =
    holds_after artifact_id volumes
      (if v.artifact.id ≟ artifact_id then release_ids v.members else held)

abbrev pub holds : List VolumeEdition → PublishRecordBundle → List String
holds volumes old = holds_after old.artifact.id volumes (old.release.id ∷ [])

pub record IsJustified (pt : Target) (candidates : List PublishCandidate) (snapshot : Snapshot)
    (r : PlanRetirement) : Type 0 where
  pub old : PublishRecordBundle
  -- The retirement is that of a record of the snapshot, which is published.
  pub stored : In old snapshot.records
  pub names : r ≡ retirement_of (related_to (required_by snapshot.volumes old) candidates) old
  pub delivered : is_published old.record_.status ≡ true
  -- No candidate has the record's destination for its own.
  pub unwanted :
      (c : PublishCandidate)
      → In c candidates
      → (pt.identity c snapshot.records).0.desired_key ≢ pt.desired_key_for_record old
  -- Each release that the record holds is covered by a candidate.
  pub covered : All (Covered candidates) (holds snapshot.volumes old)
  -- The destination is free, or holds bytes that are the library's own.
  pub owned :
      (current : String) × (pt.check_destination old.record_.target_ref
          (retirement_owned_hashes snapshot.records old)
        ≡ ok current)

-- What the first loop has built, from what it started with.
module _ (pt : Target) (records : List PublishRecordBundle) where
  plan_candidates-covered :
      (cs : List PublishCandidate) (p : Planned) (id : String)
      → In id (plan_candidates pt records cs p).covered
      → In id p.covered ⊎ Covered cs id
  unfolding plan_candidates
  plan_candidates-covered [] p id h = inl h
  plan_candidates-covered (c ∷ cs) p id h =
      elim (plan_candidates-covered cs (plan_candidate pt records p c) id h) [
        | inr (d, at, held) ↦ inr (d, inr at, held)
        | inl k ↦ elim (In-append_inv id p.covered (covered_by c) k) [
          | inl k ↦ inl k
          | inr k ↦ inr (c, inl refl, k)
        ]
      ]

  -- A key that is desired stays desired, and each candidate's key becomes desired.
  plan_candidates-keeps :
      (cs : List PublishCandidate) (p : Planned) (key : String)
      → contains p.desired key ≡ true
      → contains (plan_candidates pt records cs p).desired key ≡ true
  unfolding plan_candidates
  plan_candidates-keeps [] p key h = h
  plan_candidates-keeps (c ∷ cs) p key h =
      plan_candidates-keeps cs (plan_candidate pt records p c) key
        (rw (contains-append p.desired (desired_of pt c records) key) (rw h))

  plan_candidates-desired :
      (cs : List PublishCandidate) (p : Planned) (c : PublishCandidate)
      → In c cs
      → contains (plan_candidates pt records cs p).desired (pt.identity c records).0.desired_key
        ≡ true
  unfolding plan_candidates contains
  plan_candidates-desired [] p c h = absurd h
  plan_candidates-desired (d ∷ cs) p c (inr h) =
      plan_candidates-desired cs (plan_candidate pt records p d) c h
  plan_candidates-desired (d ∷ cs) p c (inl e) =
      let key = (pt.identity c records).0.desired_key in
      rw (← e) (
        plan_candidates-keeps cs (plan_candidate pt records p c) key
          (ground (arith, contains-append p.desired (desired_of pt c records) key, eq_iff key key)))

complete-All :
    (covered : List String) (artifact_id : String) (volumes : List VolumeEdition)
    (held : List String) (complete : Bool)
    → (complete ≡ true → All (λ id. In id covered) held)
    → complete_after covered artifact_id volumes complete ≡ true
    → All (λ id. In id covered) (holds_after artifact_id volumes held)
unfolding complete_after
complete-All covered artifact_id [] held complete h e = h e
complete-All covered artifact_id (v ∷ volumes) held complete h e =
    complete-All covered artifact_id volumes _ _ (step (v.artifact.id ≟ artifact_id)) e
  where
    step :
        (same : Bool)
        → (if same then all (contains covered) (release_ids v.members) else complete) ≡ true
        → All (λ id. In id covered) (if same then release_ids v.members else held)
    step true k = all-contains-All covered (release_ids v.members) k
    step false k = h k

is_complete-All :
    (covered : List String) (volumes : List VolumeEdition) (old : PublishRecordBundle)
    → is_complete covered volumes old ≡ true
    → All (λ id. In id covered) (holds volumes old)
unfolding is_complete
is_complete-All covered volumes old =
    complete-All covered old.artifact.id volumes (old.release.id ∷ []) _
      (λ h. (contains→In covered old.release.id h, tt))

module _ (pt : Target) (candidates : List PublishCandidate) (snapshot : Snapshot) where
  abbrev first_loop : Planned
  first_loop = plan_candidates pt snapshot.records candidates nothing_planned

  retirable-IsJustified :
      (old : PublishRecordBundle)
      → In old snapshot.records
      → is_retirable pt first_loop.desired first_loop.covered snapshot.volumes old ≡ true
      → (current : String) × (pt.check_destination old.record_.target_ref
            (retirement_owned_hashes snapshot.records old)
          ≡ ok current)
      → IsJustified pt candidates snapshot
          (retirement_of (related_to (required_by snapshot.volumes old) candidates) old)
  unfolding is_retirable
  retirable-IsJustified old at h own =
      let (first_two, complete) = &&_true _ _ h in
      let (published, unwanted) = &&_true _ _ first_two in
      record {
        old = old;
        stored = at;
        names = refl;
        delivered = published;
        unwanted = λ c in_c e. false≢true (
            sym (not-true _ unwanted)
            ∙ ap (contains first_loop.desired) (sym e)
            ∙ plan_candidates-desired pt snapshot.records candidates nothing_planned c in_c);
        covered =
            All-imp (λ id. In id first_loop.covered) (Covered candidates)
              (λ id k.
                only_right
                  (plan_candidates-covered pt snapshot.records candidates nothing_planned id k))
              (holds snapshot.volumes old)
              (is_complete-All first_loop.covered snapshot.volumes old complete);
        owned = own;
      }
    where
      only_right : {A : Type 0} → ⊥ ⊎ A → A
      only_right (inl b) = absurd b
      only_right (inr a) = a

  settle-IsJustified :
      (found : Result String) (old : PublishRecordBundle) (r : Retired)
      → In old snapshot.records
      → is_retirable pt first_loop.desired first_loop.covered snapshot.volumes old ≡ true
      → pt.check_destination old.record_.target_ref (retirement_owned_hashes snapshot.records old)
        ≡ found
      → All (IsJustified pt candidates snapshot) r.retirements
      → All
          (IsJustified pt candidates snapshot)
          (settle pt candidates snapshot.records snapshot.volumes first_loop.desired
            first_loop.covered found old r).retirements
  unfolding settle
  settle-IsJustified (err e) old r at h eq done = done
  settle-IsJustified (ok current) old r at h eq done =
      All-append _ r.retirements _ done (retirable-IsJustified old at h (current, eq), tt)

  retire_records-IsJustified :
      (olds : List PublishRecordBundle) (r : Retired)
      → ((old : PublishRecordBundle) → In old olds → In old snapshot.records)
      → All (IsJustified pt candidates snapshot) r.retirements
      → All
          (IsJustified pt candidates snapshot)
          (retire_records pt candidates snapshot.records snapshot.volumes first_loop.desired
            first_loop.covered olds r).retirements
  unfolding retire_records
  retire_records-IsJustified [] r within done = done
  retire_records-IsJustified (old ∷ olds) r within done =
      retire_records-IsJustified olds _ (λ o k. within o (inr k))
        (if_cases (λ (s : Retired). All (IsJustified pt candidates snapshot) s.retirements) _ _ r
          (λ h. settle-IsJustified _ old r (within old (inl refl)) h refl done) (λ _. done))

  plan_ordered-IsJustified :
      (rebuild : Bool) (ordered : List PublishCandidate) (dependencies : Dependencies)
      → All
          (IsJustified pt candidates snapshot)
          (plan_ordered rebuild pt candidates snapshot ordered dependencies).retirements
  unfolding plan_ordered
  plan_ordered-IsJustified rebuild ordered dependencies =
      if_cases (λ (s : Retired). All (IsJustified pt candidates snapshot) s.retirements)
        pt.capabilities.retires _ nothing_retired
        (λ _. retire_records-IsJustified snapshot.records nothing_retired (λ o k. k) tt) (λ _. tt)

pub plan_delivery-IsJustified :
    (rebuild : Bool) (pt : Target) (candidates : List PublishCandidate) (snapshot : Snapshot)
    {plan : DeliveryPlan}
    → plan_delivery rebuild pt candidates snapshot ≡ ok plan
    → All (IsJustified pt candidates snapshot) plan.retirements
unfolding plan_delivery
plan_delivery-IsJustified rebuild pt candidates snapshot h =
    let (found, _, e) = ok-bind_inv (pt.reorder candidates snapshot.records snapshot.volumes) _ h in
    rw (← ok-injective e) (plan_ordered-IsJustified pt candidates snapshot rebuild found.0 found.1)
