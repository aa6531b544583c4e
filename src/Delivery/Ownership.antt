-- ===== src/Delivery/Ownership.antt =====
-- The file system adapter under the planner: what is on disk, and whose it is.
use serial_sync.Base.{
  String, true, false, ◌&&◌, Option, none, some, List, [], ◌∷◌, ◌≡◌, ◌≢◌, inl, inr, refl, ap, ≟→≡,
  arith, if◌then◌else◌, contains, Error, errorf, ◌⧺◌, Result, ok, err, Bool-cases, &&_true, In,
}
use serial_sync.Domain.Library.{PublishCandidate, PublishRecordBundle, is_published}
use serial_sync.Domain.Plans.{Action, add, replace, unchanged, blocked}
use serial_sync.Publish.Target.{
  Target, DeliveryIdentity, Disk, owned_hashes_at, handoff_none, file_hash,
  check_filesystem_destination,
}
use serial_sync.Publish.Destination.{check_filesystem_destination_ok, check_unowned}
use serial_sync.Publish.Filesystem.{filesystem_target, placed, ref}
use serial_sync.Delivery.Candidate.{item_of, decide, scan_records, same_delivery_of}

-- An identity whose destination fails the check is an error with no hand-off.
identity_error :
    (sha256 : String → String) (disk : Disk) (id path : String) (c : PublishCandidate)
    (records : List PublishRecordBundle) (e : Error)
    → check_filesystem_destination disk (ref path c) (owned_hashes_at records (ref path c)) ≡ err e
    → ((filesystem_target sha256 disk id path).identity c records).1 ≡ some e
unfolding filesystem_target
identity_error sha256 disk id path c records e h = ground arith

pub no_handoff :
    (sha256 : String → String) (disk : Disk) (id path : String) (c : PublishCandidate)
    (records : List PublishRecordBundle)
    → ((filesystem_target sha256 disk id path).identity c records).0.handoff ≡ handoff_none
unfolding filesystem_target
no_handoff sha256 disk id path c records = ground arith

decide_error :
    (pt : Target) (c : PublishCandidate) (records : List PublishRecordBundle) (e : Error)
    → (pt.identity c records).1 ≡ some e
    → (pt.identity c records).0.handoff ≡ handoff_none
    → (item_of pt c records).action ≡ blocked
unfolding item_of
decide_error pt c records e h k = ground arith

-- A destination that holds bytes which no published or publishing record owns blocks the candidate.
pub unowned-blocked :
    (sha256 : String → String) (disk : Disk) (id path : String) (c : PublishCandidate)
    (records : List PublishRecordBundle) (current : String)
    → file_hash disk (ref path c) ≡ ok current
    → current ≢ ""
    → contains (owned_hashes_at records (ref path c)) current ≡ false
    → (item_of (filesystem_target sha256 disk id path) c records).action ≡ blocked
unowned-blocked sha256 disk id path c records current there ne no_owner =
    decide_error (filesystem_target sha256 disk id path) c records
      (errorf ("destination ownership conflict: " ⧺ ref path c))
      (identity_error sha256 disk id path c records _
        (check_unowned disk (ref path c) _ current there ne no_owner))
      (no_handoff sha256 disk id path c records)

-- A published record of the candidate's own delivery, whose bytes are in place.
abbrev pub OwnDelivery :
    Target → PublishCandidate → DeliveryIdentity → List PublishRecordBundle → Type 0
OwnDelivery pt c i records =
    (r : PublishRecordBundle) × In r records
    × (is_published r.record_.status ≡ true)
    × (same_delivery_of pt c i r ≡ true)
    × (i.intact ≡ true)

OwnDelivery-later :
    (pt : Target) (c : PublishCandidate) (i : DeliveryIdentity) (r : PublishRecordBundle)
    (records : List PublishRecordBundle)
    → OwnDelivery pt c i records
    → OwnDelivery pt c i (r ∷ records)
OwnDelivery-later pt c i r records (r', at, p, s, k) = (r', inr at, p, s, k)

-- Where the records make an action `unchanged`, one of them is the candidate's own delivery.
scan_records_unchanged :
    (pt : Target) (c : PublishCandidate) (i : DeliveryIdentity) (records : List PublishRecordBundle)
    (a : Action)
    → a ≢ unchanged
    → (scan_records pt c i records a).0 ≡ unchanged
    → OwnDelivery pt c i records
unfolding scan_records
scan_records_unchanged pt c i [] a ne h = absurd (ne h)
scan_records_unchanged pt c i (r ∷ records) a ne h =
    elim (Bool-cases (is_published r.record_.status && same_delivery_of pt c i r)) [
      | inl y ↦ (r, inl refl, (&&_true _ _ y).0, (&&_true _ _ y).1, ground arith)
      | inr n ↦ OwnDelivery-later pt c i r records (
          scan_records_unchanged pt c i records
            (if is_published r.record_.status
              then if pt.matches_destination r c then replace else a
              else a)
            (ground arith) (ground arith))
    ]

decide_unchanged :
    (pt : Target) (c : PublishCandidate) (found : DeliveryIdentity × Option Error)
    (records : List PublishRecordBundle)
    → found.0.handoff ≡ handoff_none
    → (decide pt c found records).0 ≡ unchanged
    → OwnDelivery pt c found.0 records
unfolding decide
decide_unchanged pt c (i, some e) records none_yet h = absurd (ground arith)
decide_unchanged pt c (i, none) records none_yet h =
    scan_records_unchanged pt c i records add (cc) (ground arith)

placed_intact :
    (sha : String) (base : DeliveryIdentity) (found : Result String)
    → base.intact ≡ false
    → (placed sha base found).0.intact ≡ true
    → found ≡ ok sha
unfolding placed
placed_intact sha base (err e) fresh h = cc
placed_intact sha base (ok current) fresh h = ap ok (≟→≡ current sha (&&_true _ _ h).1)

-- An identity that says `intact` has seen the candidate's bytes at its destination.
intact_in_place :
    (sha256 : String → String) (disk : Disk) (id path : String) (c : PublishCandidate)
    (records : List PublishRecordBundle)
    → ((filesystem_target sha256 disk id path).identity c records).0.intact ≡ true
    → file_hash disk (ref path c) ≡ ok c.artifact.sha256
unfolding filesystem_target
intact_in_place sha256 disk id path c records h =
    (check_filesystem_destination_ok disk (ref path c) (owned_hashes_at records (ref path c))
      c.artifact.sha256 (placed_intact c.artifact.sha256 _ _ refl h)).0

-- A file that the plan leaves `unchanged` holds the candidate's bytes, and a published record of the
-- same release, track, bytes and destination says so.
pub unchanged-in_place :
    (sha256 : String → String) (disk : Disk) (id path : String) (c : PublishCandidate)
    (records : List PublishRecordBundle)
    → (item_of (filesystem_target sha256 disk id path) c records).action ≡ unchanged
    → (file_hash disk (ref path c) ≡ ok c.artifact.sha256)
      × OwnDelivery
          (filesystem_target sha256 disk id path)
          c
          ((filesystem_target sha256 disk id path).identity c records).0
          records
unfolding item_of
unchanged-in_place sha256 disk id path c records h =
    let pt = filesystem_target sha256 disk id path in
    let own =
      decide_unchanged pt c (pt.identity c records) records
        (no_handoff sha256 disk id path c records) h in
    (intact_in_place sha256 disk id path c records own.4, own)
