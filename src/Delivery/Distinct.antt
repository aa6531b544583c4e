-- ===== src/Delivery/Distinct.antt =====
-- internal/app/replacement.go, `resolveCollisionNames`: what an answer without an error promises.
use serial_sync.Base.{
  ℕ, get_elem?, ◌∙◌, ◌≢◌, ◌⊎◌, ≟→≡, selected_other, selected_two, get_elem?-map, eq_refl,
  false≢true, arith, true, to_lower, NoRepeat, String, false, Option, none, some, List, [], ◌∷◌,
  ◌≟◌, ◌≡◌, refl, sym, Bool-cases, inl, inr, map, contains, All, All-imp, ||_false, ok,
  ok-injective, Matchers,
}
use serial_sync.Domain.Library.{PublishCandidate}
use serial_sync.Base.FilePath.{join}
use serial_sync.Delivery.Names.{
  name_key, is_shared, renamed, distinguished, first_repeat, checked, resolve_collision_names,
}

outside_both :
    (k x : String) (seen : List String)
    → contains (k ∷ seen) x ≡ false
    → ((k ≟ x) ≡ false) × (contains seen x ≡ false)
unfolding contains
outside_both k x seen h = ||_false _ _ h

first_repeat-NoRepeat :
    (seen keys : List String)
    → first_repeat seen keys ≡ none
    → All (λ x. contains seen x ≡ false) keys × NoRepeat keys
unfolding first_repeat
first_repeat-NoRepeat seen [] h = (tt, tt)
first_repeat-NoRepeat seen (k ∷ keys) h = elim (Bool-cases (contains seen k)) [
  | inl t ↦ (let bad : some k ≡ none = (rw t at h) in absurd (cc))
  | inr f ↦
      let (a, r) = first_repeat-NoRepeat (k ∷ seen) keys (rw f at h) in
      let fresh : All (λ x. contains seen x ≡ false) keys =
        All-imp _ _ (λ x e. (outside_both k x seen e).1) keys a in
      let apart : All (λ x. (k ≟ x) ≡ false) keys =
        All-imp _ _ (λ x e. (outside_both k x seen e).0) keys a in
      ((f, fresh), (apart, r))
]

checked_inv :
    (candidates out : List PublishCandidate) (repeat : Option String)
    → checked candidates repeat ≡ ok out
    → (repeat ≡ none) × (out ≡ candidates)
unfolding checked
checked_inv candidates out none h = (refl, sym (ok-injective h))
checked_inv candidates out (some key) h = absurd (cc)

module _ (go : Matchers) where
  -- The place of a file below the root, in lower case.
  abbrev pub lower_place : PublishCandidate → String
  lower_place c = to_lower go (join (c.source.id ∷ c.track.track_key ∷ c.artifact.filename ∷ []))

  -- A candidate other than the `i`th has the same place in lower case.
  abbrev pub HasRival : List PublishCandidate → ℕ → PublishCandidate → Type 0
  HasRival candidates i c =
      (j : ℕ) × (d : PublishCandidate) × (j ≢ i)
      × (get_elem? candidates j ≡ some d)
      × (lower_place d ≡ lower_place c)

  is_shared-HasRival :
      (candidates : List PublishCandidate) (i : ℕ) (c : PublishCandidate)
      → is_shared go candidates c ≡ true
      → HasRival candidates i c
  unfolding is_shared name_key
  is_shared-HasRival candidates i c h =
      let (j, d, n, at, same) =
        selected_other (λ d. lower_place d ≟ lower_place c) candidates i (ground arith) in
      (j, d, n, at, ≟→≡ (lower_place d) (lower_place c) same)

  HasRival-is_shared :
      (candidates : List PublishCandidate) (i : ℕ) (c : PublishCandidate)
      → get_elem? candidates i ≡ some c
      → HasRival candidates i c
      → is_shared go candidates c ≡ true
  unfolding is_shared name_key
  HasRival-is_shared candidates i c here (j, d, n, at, same) =
      let two =
        selected_two (λ d. lower_place d ≟ lower_place c) candidates i j c d here at n
          (eq_refl (lower_place c)) (rw same (eq_refl (lower_place c))) in
      ground arith

module _ (go : Matchers) (sha256 : String → String) where
  -- The `i`th candidate is renamed if it has a rival, and is otherwise left as it is.
  abbrev pub IsSettled :
      List PublishCandidate → List PublishCandidate → ℕ → PublishCandidate → Type 0
  IsSettled candidates out i c =
      (HasRival go candidates i c × (get_elem? out i ≡ some (renamed go sha256 c)))
      ⊎ (¬ HasRival go candidates i c × (get_elem? out i ≡ some c))

  distinguished-IsSettled :
      (candidates : List PublishCandidate) (i : ℕ) (c : PublishCandidate)
      → get_elem? candidates i ≡ some c
      → IsSettled candidates (map (distinguished go sha256 candidates) candidates) i c
  unfolding distinguished
  distinguished-IsSettled candidates i c h =
      let at = get_elem?-map (distinguished go sha256 candidates) candidates i c h in
      elim (Bool-cases (is_shared go candidates c)) [
        | inl t ↦ inl (is_shared-HasRival go candidates i c t, rw t at at)
        | inr f ↦ inr (
          (λ r. absurd (false≢true (sym f ∙ HasRival-is_shared go candidates i c h r))),
          rw f at at,
        )
      ]

  -- If the names can be told apart, no two candidates of the answer have the same source, track and
  -- file name in lower case. Then each candidate that shared those with another one is renamed, and
  -- each that did not is left as it is.
  pub resolve_collision_names-NoRepeat :
      (candidates out : List PublishCandidate)
      → resolve_collision_names go sha256 candidates ≡ ok out
      → NoRepeat (map (lower_place go) out)
        × ((i : ℕ) (c : PublishCandidate)
            → get_elem? candidates i ≡ some c
            → IsSettled candidates out i c)
  unfolding resolve_collision_names name_key
  resolve_collision_names-NoRepeat candidates out h =
      let (fine, same) =
        checked_inv (map (distinguished go sha256 candidates) candidates) out _ h in
      let (_, apart) = first_repeat-NoRepeat [] _ fine in
      (rw same apart, rw same (distinguished-IsSettled candidates))
