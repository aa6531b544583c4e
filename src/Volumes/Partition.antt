-- ===== src/Volumes/Partition.antt =====
-- The groups of a series share out its chapters.
use serial_sync.Base.{
  String, Bool, true, false, not, ◌||◌, Option, none, some, List, [], ◌∷◌, ◌++◌, ◌≡◌, refl, sym,
  ◌∙◌, ◌⊎◌, inl, inr, ◌≟◌, ≟→≡, if_cases, All, All-append, In, In-append_right, In-append_left,
  NoRepeat, errorf, Matchers, ◌⧺◌,
}
use serial_sync.Domain.Decision.{Sequence}
use serial_sync.Domain.Library.{PublishCandidate}
use serial_sync.Config.Series.{SeriesConfig, SeriesOutputConfig}
use serial_sync.Volumes.Check.{Chapter, VolumeGroup}
use serial_sync.Volumes.Group.{
  Place, Grouped, place_of, open_group, add_chapter, add_to_group, is_grouped, group_captured,
  group_candidates,
}

abbrev pub group_ids : List VolumeGroup → List String
group_ids [] = []
group_ids (g ∷ gs) = g.plan.group_id ∷ group_ids gs

-- Some group has the chapter.
abbrev pub InGroups : Chapter → List VolumeGroup → Type 0
InGroups m [] = ⊥
InGroups m (g ∷ gs) = In m g.chapters ⊎ InGroups m gs

module _ (go : Matchers) (series : SeriesConfig) (output : SeriesOutputConfig) where
  -- The chapters of the group are those whose sequence names it.
  abbrev pub Own : VolumeGroup → Type 0
  Own g = All (λ m. (place_of go series output m.sequence).group_id ≡ g.plan.group_id) g.chapters

  -- No two groups have the same id, and each has chapters of its own only.
  pub record IsPartition (groups : List VolumeGroup) : Type 0 where
    pub apart : NoRepeat (group_ids groups)
    pub own : All Own groups

  module _ (p : Place) (m : Chapter) where
    add_to_group-ids :
        (Q : String → Type 0) (gs : List VolumeGroup)
        → Q p.group_id
        → All Q (group_ids gs)
        → All Q (group_ids (add_to_group go series output p m gs))
    unfolding add_to_group add_chapter open_group
    add_to_group-ids Q [] q h = (q, tt)
    add_to_group-ids Q (g ∷ gs) q (h, hs) =
        if_cases (λ x. All Q (group_ids x)) (g.plan.group_id ≟ p.group_id)
          (record g { chapters = g.chapters ++ m ∷ [] } ∷ gs)
          (g ∷ add_to_group go series output p m gs) (λ _. (h, hs))
          (λ _. (h, add_to_group-ids Q gs q hs))

    add_to_group-NoRepeat :
        (gs : List VolumeGroup)
        → NoRepeat (group_ids gs)
        → NoRepeat (group_ids (add_to_group go series output p m gs))
    unfolding add_to_group add_chapter open_group
    add_to_group-NoRepeat [] h = (tt, tt)
    add_to_group-NoRepeat (g ∷ gs) (h, hs) =
        if_cases (λ x. NoRepeat (group_ids x)) (g.plan.group_id ≟ p.group_id)
          (record g { chapters = g.chapters ++ m ∷ [] } ∷ gs)
          (g ∷ add_to_group go series output p m gs) (λ _. (h, hs))
          (λ n. (
            add_to_group-ids (λ x. (g.plan.group_id ≟ x) ≡ false) gs n h,
            add_to_group-NoRepeat gs hs,
          ))

    add_to_group-Own :
        (gs : List VolumeGroup)
        → (place_of go series output m.sequence).group_id ≡ p.group_id
        → All Own gs
        → All Own (add_to_group go series output p m gs)
    unfolding add_to_group add_chapter open_group
    add_to_group-Own [] e h = ((e, tt), tt)
    add_to_group-Own (g ∷ gs) e (h, hs) =
        if_cases (All Own) (g.plan.group_id ≟ p.group_id)
          (record g { chapters = g.chapters ++ m ∷ [] } ∷ gs)
          (g ∷ add_to_group go series output p m gs)
          (λ k. (
            All-append _ g.chapters (m ∷ []) h (e ∙ sym (≟→≡ g.plan.group_id p.group_id k), tt),
            hs,
          ))
          (λ _. (h, add_to_group-Own gs e hs))

    add_to_group-In : (gs : List VolumeGroup) → InGroups m (add_to_group go series output p m gs)
    unfolding add_to_group add_chapter open_group
    add_to_group-In [] = inl (inl refl)
    add_to_group-In (g ∷ gs) =
        if_cases (InGroups m) (g.plan.group_id ≟ p.group_id)
          (record g { chapters = g.chapters ++ m ∷ [] } ∷ gs)
          (g ∷ add_to_group go series output p m gs)
          (λ _. inl (In-append_right m g.chapters (m ∷ []) (inl refl)))
          (λ _. inr (add_to_group-In gs))

    add_to_group-keeps :
        (n : Chapter) (gs : List VolumeGroup)
        → InGroups n gs
        → InGroups n (add_to_group go series output p m gs)
    unfolding add_to_group add_chapter open_group
    add_to_group-keeps n [] h = absurd h
    add_to_group-keeps n (g ∷ gs) h =
        if_cases (InGroups n) (g.plan.group_id ≟ p.group_id)
          (record g { chapters = g.chapters ++ m ∷ [] } ∷ gs)
          (g ∷ add_to_group go series output p m gs)
          (λ _. elim h [ inl k ↦ inl (In-append_left n g.chapters (m ∷ []) k) | inr k ↦ inr k ])
          (λ _. elim h [ inl k ↦ inl k | inr k ↦ inr (add_to_group-keeps n gs k) ])

  module _ (captured : String → Option (Sequence × Bool))
      (is_missing : PublishCandidate → Bool) where
    group_captured-IsPartition :
        (c : PublishCandidate) (st : Grouped) (found : Option (Sequence × Bool))
        → IsPartition st.groups
        → IsPartition (group_captured go series output captured is_missing c st found).groups
    unfolding group_captured
    group_captured-IsPartition c st none h =
        if_cases (λ (x : Grouped). IsPartition x.groups) (is_missing c)
          (record st {
            failures =
                st.failures
                ++ errorf ("missing stored input for " ⧺ c.release.provider_release_id) ∷ [];
          })
          st (λ _. h) (λ _. h)
    group_captured-IsPartition c st (some (seq, legacy)) h =
        let m : Chapter = record { candidate = c; sequence = seq; legacy = legacy } in
        let p = place_of go series output seq in
        if_cases IsPartition (is_grouped go series output seq)
          (add_to_group go series output p m st.groups) st.groups
          (λ _. record {
            apart = add_to_group-NoRepeat p m st.groups h.apart;
            own = add_to_group-Own p m st.groups refl h.own;
          })
          (λ _. h)

    group_captured-keeps :
        (n : Chapter) (c : PublishCandidate) (st : Grouped) (found : Option (Sequence × Bool))
        → InGroups n st.groups
        → InGroups n (group_captured go series output captured is_missing c st found).groups
    unfolding group_captured
    group_captured-keeps n c st none h =
        if_cases (λ (x : Grouped). InGroups n x.groups) (is_missing c)
          (record st {
            failures =
                st.failures
                ++ errorf ("missing stored input for " ⧺ c.release.provider_release_id) ∷ [];
          })
          st (λ _. h) (λ _. h)
    group_captured-keeps n c st (some (seq, legacy)) h =
        let m : Chapter = record { candidate = c; sequence = seq; legacy = legacy } in
        let p = place_of go series output seq in
        if_cases (InGroups n) (is_grouped go series output seq)
          (add_to_group go series output p m st.groups) st.groups
          (λ _. add_to_group-keeps p m n st.groups h) (λ _. h)

    group_captured-In :
        (c : PublishCandidate) (st : Grouped) (seq : Sequence) (legacy : Bool)
        → is_grouped go series output seq ≡ true
        → InGroups
            (record { candidate = c; sequence = seq; legacy = legacy })
            (group_captured go series output captured is_missing c st (some (seq, legacy))).groups
    unfolding group_captured
    group_captured-In c st seq legacy g =
        let m : Chapter = record { candidate = c; sequence = seq; legacy = legacy } in
        rw g (add_to_group-In (place_of go series output seq) m st.groups)

    -- The candidate is a chapter of the series.
    abbrev pub is_skipped : PublishCandidate → Bool
    is_skipped c =
        not (c.track.track_key ≟ series.id) || not (c.assignment.release_role ≟ "chapter")

    grouped-IsPartition :
        (cs : List PublishCandidate) (st : Grouped)
        → IsPartition st.groups
        → IsPartition (group_candidates go series output captured is_missing cs st).groups
    unfolding group_candidates
    grouped-IsPartition [] st h = h
    grouped-IsPartition (c ∷ cs) st h = grouped-IsPartition cs _ (
        if_cases (λ (x : Grouped). IsPartition x.groups) (is_skipped c) st
          (group_captured go series output captured is_missing c st (captured c.release.id))
          (λ _. h) (λ _. group_captured-IsPartition c st (captured c.release.id) h))

    grouped-keeps :
        (n : Chapter) (cs : List PublishCandidate) (st : Grouped)
        → InGroups n st.groups
        → InGroups n (group_candidates go series output captured is_missing cs st).groups
    unfolding group_candidates
    grouped-keeps n [] st h = h
    grouped-keeps n (c ∷ cs) st h = grouped-keeps n cs _ (
        if_cases (λ (x : Grouped). InGroups n x.groups) (is_skipped c) st
          (group_captured go series output captured is_missing c st (captured c.release.id))
          (λ _. h) (λ _. group_captured-keeps n c st (captured c.release.id) h))

    grouped-In :
        (c : PublishCandidate) (seq : Sequence) (legacy : Bool) (cs : List PublishCandidate)
        (st : Grouped)
        → In c cs
        → is_skipped c ≡ false
        → captured c.release.id ≡ some (seq, legacy)
        → is_grouped go series output seq ≡ true
        → InGroups
            (record { candidate = c; sequence = seq; legacy = legacy })
            (group_candidates go series output captured is_missing cs st).groups
    unfolding group_candidates
    grouped-In c seq legacy [] st i k e g = absurd i
    grouped-In c seq legacy (d ∷ cs) st (inl same) k e g =
        grouped-keeps _ cs _ (rw (← same) (rw k (rw e (group_captured-In c st seq legacy g))))
    grouped-In c seq legacy (d ∷ cs) st (inr i) k e g = grouped-In c seq legacy cs _ i k e g

    abbrev pub no_groups : Grouped
    no_groups = record { groups = []; has_books = false; failures = [] }

    -- The groups of a series have different ids, and each holds only chapters whose place names it.
    pub group_candidates-IsPartition :
        (cs : List PublishCandidate)
        → IsPartition (group_candidates go series output captured is_missing cs no_groups).groups
    group_candidates-IsPartition cs =
        grouped-IsPartition cs no_groups (record { apart = tt; own = tt })

    -- A chapter candidate of the series, whose captured sequence has a number and does not keep to
    -- itself, is in one of the groups.
    pub group_candidates-InGroups :
        (c : PublishCandidate) (seq : Sequence) (legacy : Bool) (cs : List PublishCandidate)
        → In c cs
        → is_skipped c ≡ false
        → captured c.release.id ≡ some (seq, legacy)
        → is_grouped go series output seq ≡ true
        → InGroups
            (record { candidate = c; sequence = seq; legacy = legacy })
            (group_candidates go series output captured is_missing cs no_groups).groups
    group_candidates-InGroups c seq legacy cs i k e g = grouped-In c seq legacy cs no_groups i k e g
