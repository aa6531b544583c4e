-- ===== src/Delivery/Retirement.antt =====
-- The file system adapter under the planner: whose the bytes are that a retirement removes.
use serial_sync.Base.{
  String, Bool, true, ◌&&◌, List, [], ◌∷◌, ◌≡◌, ◌⊎◌, inl, inr, refl, ≟→≡, ◌≟◌, arith, contains, ok,
  Bool-cases, &&_true, In, All, All-imp,
}
use serial_sync.Domain.Library.{PublishCandidate, PublishRecordBundle, is_published}
use serial_sync.Publish.Target.{Disk, file_hash}
use serial_sync.Publish.Filesystem.{filesystem_target}
use serial_sync.Delivery.Retire.{
  PlanRetirement, retirement_of, retirement_owned_hashes, owned_siblings,
}
use serial_sync.Delivery.Plan.{Snapshot, DeliveryPlan, plan_delivery}
use serial_sync.Delivery.Justified.{IsJustified, plan_delivery-IsJustified}
use serial_sync.Publish.Destination.{check_filesystem_destination_ok}

-- A published record of the list delivered these bytes to this destination.
abbrev pub PublishedAt : List PublishRecordBundle → String → String → Type 0
PublishedAt records there sha =
    (b : PublishRecordBundle) × In b records
    × (is_published b.record_.status ≡ true)
    × (b.record_.target_ref ≡ there)
    × (b.artifact.sha256 ≡ sha)

-- What is at a retired destination: nothing, or the bytes of a delivery that was published there.
abbrev pub Owned : Disk → Snapshot → PlanRetirement → Type 0
Owned disk snapshot r =
    (current : String) × (file_hash disk r.target_ref ≡ ok current)
    × ((current ≡ "") ⊎ PublishedAt snapshot.records r.target_ref current)

PublishedAt-later :
    (r : PublishRecordBundle) (records : List PublishRecordBundle) (there sha : String)
    → PublishedAt records there sha
    → PublishedAt (r ∷ records) there sha
PublishedAt-later r records there sha (b, at, p, e, k) = (b, inr at, p, e, k)

-- A hash that entitles a retirement is that of a published delivery to the same destination.
owned_siblings-published :
    (old : PublishRecordBundle) (records : List PublishRecordBundle) (sha : String)
    → contains (owned_siblings old records) sha ≡ true
    → PublishedAt records old.record_.target_ref sha
unfolding owned_siblings contains
owned_siblings-published old [] sha h = absurd (cc)
owned_siblings-published old (r ∷ records) sha h =
    elim (Bool-cases (
      is_published r.record_.status
      && r.release.id ≟ old.release.id
      && r.record_.target_ref ≟ old.record_.target_ref)) [
        | inr n ↦
            PublishedAt-later r records _ sha
              (owned_siblings-published old records sha (ground arith))
        | inl y ↦ elim (Bool-cases (r.artifact.sha256 ≟ sha)) [
          | inl e ↦ (
            r,
            inl refl,
            (&&_true _ _ (&&_true _ _ y).0).0,
            ≟→≡ _ _ (&&_true _ _ y).1,
            ≟→≡ _ sha e,
          )
          | inr n ↦
              PublishedAt-later r records _ sha
                (owned_siblings-published old records sha (ground arith))
        ]
      ]

retirement_owned-published :
    (old : PublishRecordBundle) (records : List PublishRecordBundle) (sha : String)
    → In old records
    → is_published old.record_.status ≡ true
    → contains (retirement_owned_hashes records old) sha ≡ true
    → PublishedAt records old.record_.target_ref sha
unfolding retirement_owned_hashes contains
retirement_owned-published old records sha at published h =
    elim (Bool-cases (old.artifact.sha256 ≟ sha)) [
      | inl e ↦ (old, at, published, refl, ≟→≡ _ sha e)
      | inr n ↦ owned_siblings-published old records sha (ground arith)
    ]

IsJustified-Owned :
    (sha256 : String → String) (disk : Disk) (id path : String) (candidates : List PublishCandidate)
    (snapshot : Snapshot) (r : PlanRetirement)
    → IsJustified (filesystem_target sha256 disk id path) candidates snapshot r
    → Owned disk snapshot r
unfolding filesystem_target retirement_of
IsJustified-Owned sha256 disk id path candidates snapshot r j =
    let old = j.old in
    let (there, own) =
      check_filesystem_destination_ok disk old.record_.target_ref
        (retirement_owned_hashes snapshot.records old) j.owned.0 j.owned.1 in
    rw j.names (
      j.owned.0,
      there,
      elim own [
        | inl e ↦ inl e
        | inr k ↦ inr (retirement_owned-published old snapshot.records _ j.stored j.delivered k)
      ],
    )

-- The bytes at a destination that a plan retires are those of an artifact that a published record of
-- the snapshot delivered to that very destination, or there are none.
pub retired-Owned :
    (rebuild : Bool) (sha256 : String → String) (disk : Disk) (id path : String)
    (candidates : List PublishCandidate) (snapshot : Snapshot) {plan : DeliveryPlan}
    → plan_delivery rebuild (filesystem_target sha256 disk id path) candidates snapshot ≡ ok plan
    → All (Owned disk snapshot) plan.retirements
retired-Owned rebuild sha256 disk id path candidates snapshot h =
    All-imp (IsJustified (filesystem_target sha256 disk id path) candidates snapshot)
      (Owned disk snapshot) (IsJustified-Owned sha256 disk id path candidates snapshot) _
      (plan_delivery-IsJustified rebuild (filesystem_target sha256 disk id path) candidates snapshot
        h)
