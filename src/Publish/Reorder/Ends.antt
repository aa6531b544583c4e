-- ===== src/Publish/Reorder/Ends.antt =====
-- The depth-first visit of `Reorder` ends: the fuel is more than the depth of its calls.
use serial_sync.Base.{
  ℕ, zero, suc, ◌+◌, ◌<◌, String, true, List, [], ◌∷◌, ◌≡◌, refl, if_cases, contains, length,
  contains-apart, NoRepeat, Within, NoRepeat-length, cyclic_replacement, Result, ok, err, ◌>>=◌,
  sort_strings, sort_strings-All, arith,
}
use serial_sync.Domain.Library.{PublishCandidate}
use serial_sync.Publish.Target.{Dependencies, depends_on}
use serial_sync.Publish.Filesystem.Order.{Visit, candidate_ids, visit_all, visit}
use serial_sync.Publish.Reorder.Graph.{PointsInto, depends_on-Within}

-- The visit is through, or has met a cycle.
abbrev pub IsEnded {ℓ} : {A : Type ℓ} → String → Result A → Type 0
IsEnded target_id (ok st) = Unit
IsEnded target_id (err e) = e ≡ cyclic_replacement target_id

module _ (target_id : String) where
  pub IsEnded-bind {ℓ} :
      {A B : Type ℓ} (m : Result A) (rest : A → Result B)
      → IsEnded target_id m
      → ((a : A) → IsEnded target_id (rest a))
      → IsEnded target_id (m >>= rest)
  IsEnded-bind (ok a) rest h f = f a
  IsEnded-bind (err e) rest h f = h

module _ (target_id : String) (all : List PublishCandidate) (deps : Dependencies) where
  -- The loop over the dependencies ends if the visit of each candidate does.
  pub visit_all-IsEnded :
      (step : String → Visit → Result Visit) (xs : List String) (st : Visit)
      → Within (candidate_ids all) xs
      → ((id : String) (s : Visit)
          → contains (candidate_ids all) id ≡ true
          → IsEnded target_id (step id s))
      → IsEnded target_id (visit_all target_id all deps step xs st)
  unfolding visit_all
  visit_all-IsEnded step [] st w h = tt
  visit_all-IsEnded step (x ∷ xs) st (c, w) h =
      IsEnded-bind target_id _ _ (h x st c) (λ s. visit_all-IsEnded step xs s w h)

  -- The ids on the stack of calls are different candidates', so that more fuel than candidates is
  -- never used up.
  pub visit-IsEnded :
      (f : ℕ) (visiting : List String) (id : String) (st : Visit)
      → PointsInto (candidate_ids all) deps
      → length (candidate_ids all) < f + length visiting
      → NoRepeat visiting
      → Within (candidate_ids all) visiting
      → contains (candidate_ids all) id ≡ true
      → IsEnded target_id (visit target_id all deps f visiting id st)
  unfolding visit
  visit-IsEnded zero visiting id st g l n w c =
      absurd (omega (arith, NoRepeat-length visiting (candidate_ids all) n w))
  visit-IsEnded (suc f) visiting id st g l n w c =
      if_cases (IsEnded target_id) (contains st.visited id) _ _ (λ _. tt)
        (λ _.
          if_cases (IsEnded target_id) (contains visiting id) _ _ (λ _. refl)
            (λ apart.
              IsEnded-bind target_id _ _
                (visit_all-IsEnded (visit target_id all deps f (id ∷ visiting))
                  (sort_strings (depends_on deps id)) st
                  (sort_strings-All _ _ (depends_on-Within (candidate_ids all) deps id g))
                  (λ d s k.
                    visit-IsEnded f (id ∷ visiting) d s g (omega arith)
                      (contains-apart visiting id apart, n) (c, w) k))
                (λ s. tt)))
