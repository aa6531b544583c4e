-- ===== src/Delivery/HandOff.antt =====
-- The drop adapter under the planner: a release is handed off once.
use serial_sync.Base.{
  String, Bool, true, false, not, ◌&&◌, Option, none, some, List, [], ◌∷◌, ◌≡◌, ◌⊎◌, refl, ap, ◌∙◌,
  ◌≟◌, arith, if◌then◌else◌, is_empty, any, Error,
}
use serial_sync.Domain.Library.{PublishCandidate, PublishRecordBundle, VolumeEdition}
use serial_sync.Domain.Plans.{Action, add, held, unchanged, blocked}
use serial_sync.Publish.Target.{
  Target, DeliveryIdentity, Disk, Handoff, handoff_none, handoff_same, handoff_revised,
}
use serial_sync.Publish.Drop.{drop_target, drop_key, handed_off, handoff_of}
use serial_sync.Delivery.Candidate.{item_of, decide, initial_action, scan_records}

-- The key under which a candidate's release is handed off.
abbrev pub key_of : PublishCandidate → String
key_of c = drop_key c.source.id c.release.provider_release_id

-- A published record covers the release.
abbrev pub already_handed_off : List PublishRecordBundle → PublishCandidate → Bool
already_handed_off records c = any (handed_off (key_of c)) records

-- A published record covers the release with the candidate's very bytes.
abbrev pub same_bytes_handed_off : List PublishRecordBundle → PublishCandidate → Bool
same_bytes_handed_off records c =
    any
      (λ r.
        handed_off (key_of c) r
        && (not (is_empty c.artifact.sha256) && r.artifact.sha256 ≟ c.artifact.sha256))
      records

-- What the planner has to say of a single chapter at a drop target.
abbrev pub drop_action : List PublishRecordBundle → PublishCandidate → Action
drop_action records c =
    if same_bytes_handed_off records c
    then unchanged
    else if already_handed_off records c
    then held
    else add

handoff_of-same :
    (key sha : String) (records : List PublishRecordBundle) (h : Handoff)
    → any (λ r. handed_off key r && (not (is_empty sha) && r.artifact.sha256 ≟ sha)) records ≡ true
    → handoff_of key sha records h ≡ handoff_same
unfolding handoff_of
handoff_of-same key sha [] h e = cc
handoff_of-same key sha (r ∷ records) h e =
    ground
      (arith, handoff_of-same key sha records h, handoff_of-same key sha records handoff_revised)

handoff_of-none :
    (key sha : String) (records : List PublishRecordBundle) (h : Handoff)
    → any (handed_off key) records ≡ false
    → handoff_of key sha records h ≡ h
unfolding handoff_of
handoff_of-none key sha [] h e = refl
handoff_of-none key sha (r ∷ records) h e = ground (arith, handoff_of-none key sha records h)

handoff_of-revised :
    (key sha : String) (records : List PublishRecordBundle) (h : Handoff)
    → any (λ r. handed_off key r && (not (is_empty sha) && r.artifact.sha256 ≟ sha)) records ≡ false
    → (any (handed_off key) records ≡ true) ⊎ (h ≡ handoff_revised)
    → handoff_of key sha records h ≡ handoff_revised
unfolding handoff_of
handoff_of-revised key sha [] h e k = ground arith
handoff_of-revised key sha (r ∷ records) h e k = ground (
  arith,
  handoff_of-revised key sha records h,
  handoff_of-revised key sha records handoff_revised,
)

module _ (sha256 quote : String → String) (disk : Disk) (id path : String) where
  -- Nothing matches a drop destination, so the records change no action.
  scan_drop :
      (c : PublishCandidate) (i : DeliveryIdentity) (records : List PublishRecordBundle)
      (a : Action)
      → (scan_records (drop_target sha256 quote disk id path) c i records a).0 ≡ a
  unfolding scan_records drop_target
  scan_drop c i [] a = refl
  scan_drop c i (r ∷ records) a = ground (arith, scan_drop c i records a)

  abbrev drop : Target
  drop = drop_target sha256 quote disk id path

  decide-drop :
      (c : PublishCandidate) (found : DeliveryIdentity × Option Error)
      (records : List PublishRecordBundle)
      → found.1 ≡ none
      → (decide drop c found records).0 ≡ initial_action none found.0.handoff
  unfolding decide initial_action
  decide-drop c (i, some e) records h = cc
  decide-drop c (i, none) records h = ground (arith, scan_drop c i records add)

  identity_chapter :
      (c : PublishCandidate) (records : List PublishRecordBundle)
      → c.volume ≡ none
      → ((drop.identity c records).1 ≡ none)
        × ((drop.identity c records).0.handoff
            ≡ handoff_of (key_of c) c.artifact.sha256 records handoff_none)
  unfolding drop_target
  identity_chapter c records h = rw h (refl, refl)

  identity_volume :
      (c : PublishCandidate) (records : List PublishRecordBundle) (v : VolumeEdition)
      → c.volume ≡ some v
      → ((decide drop c (drop.identity c records) records).0 ≡ blocked)
  unfolding drop_target decide initial_action
  identity_volume c records v h = rw h refl

  action_of_handoff :
      (c : PublishCandidate) (records : List PublishRecordBundle)
      → initial_action none (handoff_of (key_of c) c.artifact.sha256 records handoff_none)
        ≡ drop_action records c
  unfolding initial_action
  action_of_handoff c records = ground (
    arith,
    handoff_of-same (key_of c) c.artifact.sha256 records handoff_none,
    handoff_of-none (key_of c) c.artifact.sha256 records handoff_none,
    handoff_of-revised (key_of c) c.artifact.sha256 records handoff_none,
  )

  -- The action of every single chapter at a drop target: `unchanged` exactly when a published record
  -- covers its release with its very bytes, `held` when one covers it with other bytes, and `add`
  -- when none covers it. A volume is blocked.
  pub drop-action :
      (c : PublishCandidate) (records : List PublishRecordBundle)
      → (c.volume ≡ none
          → (item_of (drop_target sha256 quote disk id path) c records).action
            ≡ drop_action records c)
        × ((v : VolumeEdition)
            → c.volume ≡ some v
            → (item_of (drop_target sha256 quote disk id path) c records).action ≡ blocked)
  unfolding item_of
  drop-action c records = (
    λ h.
        let (no_error, handoff) = identity_chapter c records h in
        decide-drop c (drop.identity c records) records no_error
        ∙ ap (initial_action none) handoff
        ∙ action_of_handoff c records,
    λ v h. identity_volume c records v h,
  )
