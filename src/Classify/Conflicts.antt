-- ===== src/Classify/Conflicts.antt =====
-- internal/classify/classify.go, `decisionConflicts`: exactly which conflicts are reported.
use serial_sync.Base.{
  Bool, true, false, ◌&&◌, List, [], ◌∷◌, ◌≡◌, refl, inl, inr, ◌↔◌, ◌≟◌, Bool-cases, In, In-if_inv,
  In-select, select-In, In-append_inv, In-append_left, In-append_right,
}
use serial_sync.Domain.Explanation.{RuleAttempt, DecisionConflict}
use serial_sync.Classify.Decide.{
  is_label, is_title, labels_of, titles_of, conflict, conflicts_with, conflicts_between,
  decision_conflicts,
}

-- The conflict is that of a labelled attempt and one of the titles, which disagree on the series.
unfoldable Disagrees : RuleAttempt → List RuleAttempt → DecisionConflict → Type 0
Disagrees label titles c =
    (title : RuleAttempt) × In title titles
    × ((label.series ≟ title.series) ≡ false)
    × (c ≡ conflict label title)

-- The same for one of the labelled attempts.
unfoldable pub Reported : List RuleAttempt → List RuleAttempt → DecisionConflict → Type 0
unfolding Disagrees
Reported labels titles c = (label : RuleAttempt) × In label labels × Disagrees label titles c

Disagrees-cons :
    (label t : RuleAttempt) (titles : List RuleAttempt) (c : DecisionConflict)
    → Disagrees label titles c
    → Disagrees label (t ∷ titles) c
unfolding Disagrees
Disagrees-cons label t titles c (u, h, n, e) = (u, inr h, n, e)

In-conflicts_with :
    (label : RuleAttempt) (titles : List RuleAttempt) (c : DecisionConflict)
    → In c (conflicts_with label titles)
    → Disagrees label titles c
unfolding conflicts_with Disagrees
In-conflicts_with label [] c h = absurd h
In-conflicts_with label (t ∷ titles) c h = elim (Bool-cases (label.series ≟ t.series)) [
  | inl s ↦ Disagrees-cons label t titles c (In-conflicts_with label titles c (rw s at h))
  | inr s ↦ elim (In-if_inv true c (conflict label t) (conflicts_with label titles) (rw s at h)) [
    | inl (_, e) ↦ (t, inl refl, s, e)
    | inr k ↦ Disagrees-cons label t titles c (In-conflicts_with label titles c k)
  ]
]

conflicts_with-In :
    (label : RuleAttempt) (titles : List RuleAttempt) (c : DecisionConflict)
    → Disagrees label titles c
    → In c (conflicts_with label titles)
unfolding conflicts_with Disagrees
conflicts_with-In label [] c (u, h, _, _) = absurd h
conflicts_with-In label (t ∷ titles) c (u, inl e, n, q) =
    let s : (label.series ≟ t.series) ≡ false = (rw e at n) in rw s (inl (rw e at q))
conflicts_with-In label (t ∷ titles) c (u, inr h, n, q) =
    let k = conflicts_with-In label titles c (u, h, n, q) in
    elim (Bool-cases (label.series ≟ t.series)) [ inl s ↦ rw s k | inr s ↦ rw s (inr k) ]

In-conflicts_between :
    (labels titles : List RuleAttempt) (c : DecisionConflict)
    → In c (conflicts_between labels titles)
    → Reported labels titles c
unfolding conflicts_between Reported
In-conflicts_between [] titles c h = absurd h
In-conflicts_between (l ∷ labels) titles c h =
    elim (In-append_inv c (conflicts_with l titles) (conflicts_between labels titles) h) [
      | inl k ↦ (l, inl refl, In-conflicts_with l titles c k)
      | inr k ↦ let (m, a, d) = In-conflicts_between labels titles c k in (m, inr a, d)
    ]

conflicts_between-In :
    (labels titles : List RuleAttempt) (c : DecisionConflict)
    → Reported labels titles c
    → In c (conflicts_between labels titles)
unfolding conflicts_between Reported
conflicts_between-In [] titles c (m, h, _) = absurd h
conflicts_between-In (l ∷ labels) titles c (m, inl e, d) =
    In-append_left c _ _ (conflicts_with-In l titles c (rw e at d))
conflicts_between-In (l ∷ labels) titles c (m, inr h, d) =
    In-append_right c _ _ (conflicts_between-In labels titles c (m, h, d))

-- The attempt matched, by one of the selectors that the test looks for.
abbrev pub MatchedBy : (RuleAttempt → Bool) → List RuleAttempt → RuleAttempt → Type 0
MatchedBy test attempts a = In a attempts × ((a.matched && test a) ≡ true)

-- The reported conflicts are those of the pairs of matched attempts, the one by a label and the
-- other by an expression, that name different series: each such pair is reported, and no other.
pub decision_conflicts-In :
    (attempts : List RuleAttempt) (c : DecisionConflict)
    → In c (decision_conflicts attempts) ↔ (
        (label title : RuleAttempt) × MatchedBy is_label attempts label
        × MatchedBy is_title attempts title
        × ((label.series ≟ title.series) ≡ false)
        × (c ≡ conflict label title))
unfolding decision_conflicts labels_of titles_of Reported Disagrees
decision_conflicts-In attempts c = (
  λ h.
      let (l, hl, (t, ht, n, e)) =
        In-conflicts_between (labels_of attempts) (titles_of attempts) c h in
      (l, t, In-select _ l attempts hl, In-select _ t attempts ht, n, e),
  λ (l, t, (hl, pl), (ht, pt), n, e).
      conflicts_between-In (labels_of attempts) (titles_of attempts) c
        (l, select-In _ l attempts hl pl, (t, select-In _ t attempts ht pt, n, e)),
)
