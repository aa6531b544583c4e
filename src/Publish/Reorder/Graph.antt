-- ===== src/Publish/Reorder/Graph.antt =====
-- The dependencies that `Reorder` builds point at candidates.
use serial_sync.Base.{
  String, true, false, not, ◌||◌, List, [], ◌∷◌, ◌≡◌, refl, ◌⊎◌, inl, inr, ◌≟◌, is_empty, if_cases,
  Bool-cases, eq_refl, All, All-append, contains, Within, IfOk, IfOk-bind, false≢true, sym, ap, ◌∙◌,
  arith,
}
use serial_sync.Domain.Library.{PublishCandidate, PublishRecordBundle, VolumeEdition, is_published}
use serial_sync.Publish.Target.{Dependencies, depends_on, add_dependency}
use serial_sync.Publish.Filesystem.Order.{
  covers_release, by_release, edition_members, candidate_ids, depend_members, depend_records,
  depend_candidates,
}

-- Every artifact that the map names as a dependency is one of the list.
abbrev pub PointsInto : List String → Dependencies → Type 0
PointsInto ids deps = All (λ (e : String × List String). Within ids e.1) deps

pub depends_on-Within :
    (ids : List String) (deps : Dependencies) (k : String)
    → PointsInto ids deps
    → Within ids (depends_on deps k)
unfolding depends_on
depends_on-Within ids [] k h = tt
depends_on-Within ids ((j, ds) ∷ deps) k (h, hs) =
    if_cases (Within ids) (j ≟ k) _ _ (λ _. h) (λ _. depends_on-Within ids deps k hs)

add_dependency-PointsInto :
    (ids : List String) (deps : Dependencies) (k id : String)
    → contains ids id ≡ true
    → PointsInto ids deps
    → PointsInto ids (add_dependency deps k id)
unfolding add_dependency
add_dependency-PointsInto ids [] k id c h = ((c, tt), tt)
add_dependency-PointsInto ids ((j, ds) ∷ deps) k id c (h, hs) =
    if_cases (PointsInto ids) (j ≟ k) _ _
      (λ _. (All-append (λ x. contains ids x ≡ true) ds (id ∷ []) h (c, tt), hs))
      (λ _. (h, add_dependency-PointsInto ids deps k id c hs))

-- A release's candidate is one of the candidates, unless the lookup finds none.
by_release-contains :
    (cs : List PublishCandidate) (release found : String)
    → (by_release cs release found ≡ found)
      ⊎ (contains (candidate_ids cs) (by_release cs release found) ≡ true)
unfolding by_release candidate_ids contains
by_release-contains [] release found = inl refl
by_release-contains (c ∷ cs) release found = elim (Bool-cases (covers_release c release)) [
  | inl t ↦ rw t (elim (by_release-contains cs release c.artifact.id) [
    | inl e ↦ inr (rw (e, eq_refl c.artifact.id) refl)
    | inr h ↦ inr (ground (arith, h))
  ])
  | inr f ↦ rw f (elim (by_release-contains cs release found) [
    | inl e ↦ inl e
    | inr h ↦ inr (ground (arith, h))
  ])
]

module _ (target_id : String) (ref : PublishCandidate → String) (all : List PublishCandidate) where
  abbrev IsGraph : Dependencies → Type 0
  IsGraph deps = PointsInto (candidate_ids all) deps

  replacement_known :
      (id : String)
      → is_empty (by_release all id "") ≡ false
      → contains (candidate_ids all) (by_release all id "") ≡ true
  replacement_known id n = elim (by_release-contains all id "") [
    | inl e ↦ absurd (false≢true (sym n ∙ ap is_empty e))
    | inr h ↦ h
  ]

  depend_members-IsGraph :
      (c : PublishCandidate) (ids : List String) (deps : Dependencies)
      → IsGraph deps
      → IfOk IsGraph (depend_members target_id ref all c ids deps)
  unfolding depend_members
  depend_members-IsGraph c [] deps h = h
  depend_members-IsGraph c (id ∷ ids) deps h =
      if_cases (IfOk IsGraph) (is_empty (by_release all id "")) _ _ (λ _. tt)
        (λ n. depend_members-IsGraph c ids _ (
          if_cases IsGraph (by_release all id "" ≟ c.artifact.id) _ _ (λ _. h)
            (λ _.
              add_dependency-PointsInto (candidate_ids all) deps c.artifact.id _
                (replacement_known id n) h)))

  depend_records-IsGraph :
      (volumes : List VolumeEdition) (c : PublishCandidate) (records : List PublishRecordBundle)
      (deps : Dependencies)
      → IsGraph deps
      → IfOk IsGraph (depend_records target_id ref all volumes c records deps)
  unfolding depend_records
  depend_records-IsGraph volumes c [] deps h = h
  depend_records-IsGraph volumes c (old ∷ records) deps h =
      if_cases (IfOk IsGraph)
        (not (is_published old.record_.status)
          || not (old.record_.target_ref ≟ ref c)
          || old.artifact.id ≟ c.artifact.id)
        _ _ (λ _. depend_records-IsGraph volumes c records deps h)
        (λ _.
          IfOk-bind IsGraph IsGraph _ _
            (depend_members-IsGraph c (edition_members volumes old.artifact.id) deps h)
            (depend_records-IsGraph volumes c records))

  pub depend_candidates-IsGraph :
      (volumes : List VolumeEdition) (records : List PublishRecordBundle)
      (cs : List PublishCandidate) (deps : Dependencies)
      → IsGraph deps
      → IfOk IsGraph (depend_candidates target_id ref all volumes records cs deps)
  unfolding depend_candidates
  depend_candidates-IsGraph volumes records [] deps h = h
  depend_candidates-IsGraph volumes records (c ∷ cs) deps h =
      IfOk-bind IsGraph IsGraph _ _ (depend_records-IsGraph volumes c records deps h)
        (depend_candidates-IsGraph volumes records cs)
