-- ===== src/Publish/Reorder/Visits.antt =====
-- The depth-first visit of `Reorder`: what one visit, and a loop of visits, has done when it returns.
use serial_sync.Base.{
  ℕ, zero, suc, String, true, false, Option, none, some, List, [], ◌∷◌, ◌++◌, ◌≡◌, refl, sym, ◌∙◌,
  inl, inr, ◌≟◌, if_cases, Bool-cases, ≟→≡, false≢true, All-In_self, In, All-append, contains,
  contains-cons_self, Within, Result, IfOk, IfOk-bind, IfOk-imp, sort_strings, sort_strings-All,
  arith,
}
use serial_sync.Domain.Library.{PublishCandidate}
use serial_sync.Publish.Target.{Dependencies, depends_on}
use serial_sync.Publish.Filesystem.Order.{Visit, candidate_ids, by_id, finish, visit_all, visit}
use serial_sync.Publish.Reorder.Graph.{PointsInto, depends_on-Within}
use serial_sync.Publish.Reorder.Visited.{
  IsFound, seen_after-append, IsDeliveryOrder-append, by_id-IsFound, IsSound, Later, Later-trans,
}

module _ (target_id : String) (all : List PublishCandidate) (deps : Dependencies) where
  abbrev pub needs : String → List String
  needs id = sort_strings (depends_on deps id)

  abbrev pub Sound : Visit → Type 0
  Sound st = IsSound needs all st

  -- A visit leaves its id finished.
  abbrev pub Visits : List String → String → Visit → Visit → Type 0
  Visits visiting id st st' = Sound st' × (contains st'.visited id ≡ true) × Later visiting st st'

  abbrev pub VisitsAll : List String → List String → Visit → Visit → Type 0
  VisitsAll visiting ids st st' = Sound st' × Within st'.visited ids × Later visiting st st'

  pub visit_all-VisitsAll :
      (visiting : List String) (step : String → Visit → Result Visit) (xs : List String)
      (st : Visit)
      → Sound st
      → Within (candidate_ids all) xs
      → ((id : String) (s : Visit)
          → contains (candidate_ids all) id ≡ true
          → Sound s
          → IfOk (Visits visiting id s) (step id s))
      → IfOk (VisitsAll visiting xs st) (visit_all target_id all deps step xs st)
  unfolding visit_all
  visit_all-VisitsAll visiting step [] st i w h = (i, tt, (λ x e. e, λ x v e. e))
  visit_all-VisitsAll visiting step (x ∷ xs) st i (c, w) h =
      IfOk-bind (Visits visiting x st) (VisitsAll visiting (x ∷ xs) st) (step x st) _ (h x st c i)
        (λ s (i', v, l).
          IfOk-imp (VisitsAll visiting xs s) (VisitsAll visiting (x ∷ xs) st) _
            (λ t (i'', w', l'). (i'', (l'.0 x v, w'), Later-trans visiting st s t l l'))
            (visit_all-VisitsAll visiting step xs s i' w h))

  found-IsSound :
      (id : String) (st : Visit) (found : Option PublishCandidate)
      → Sound st
      → IsFound all id found
      → contains st.visited id ≡ false
      → Within st.visited (needs id)
      → Sound (record {
        visited = id ∷ st.visited;
        ordered = elim found [ none ↦ st.ordered | some c ↦ st.ordered ++ c ∷ [] ];
      })
  found-IsSound id st none i h n w = absurd h
  found-IsSound id st (some c) i (e, m) n w = record {
    order =
        IsDeliveryOrder-append needs [] st.ordered c i.order (rw (i.seen, e) n) (rw (i.seen, e) w);
    seen = rw (seen_after-append [] st.ordered c, i.seen, e) refl;
    known = All-append (λ d. In d all) st.ordered (c ∷ []) i.known (m, tt);
  }

  -- The candidate goes behind what has been delivered.
  finish-IsSound :
      (id : String) (st : Visit)
      → Sound st
      → contains (candidate_ids all) id ≡ true
      → contains st.visited id ≡ false
      → Within st.visited (needs id)
      → Sound (finish target_id all deps id st)
  unfolding finish
  finish-IsSound id st i c n w =
      found-IsSound id st (by_id all id none) i
        (by_id-IsFound all all id none (All-In_self all) (inr c)) n w

  -- What is on the stack of calls has not been finished meanwhile.
  unfinished :
      (visiting : List String) (id : String) (a b : Visit)
      → contains a.visited id ≡ false
      → Later (id ∷ visiting) a b
      → contains b.visited id ≡ false
  unfinished visiting id a b n (g, f) = elim (Bool-cases (contains b.visited id)) [
    | inl t ↦ absurd (false≢true (sym n ∙ f id (contains-cons_self visiting id) t))
    | inr e ↦ e
  ]

  finish-contains :
      (id : String) (st : Visit) → contains (finish target_id all deps id st).visited id ≡ true
  unfolding finish
  finish-contains id st = contains-cons_self st.visited id

  finish-Later :
      (visiting : List String) (id : String) (a b : Visit)
      → contains visiting id ≡ false
      → Later (id ∷ visiting) a b
      → Later visiting a (finish target_id all deps id b)
  unfolding finish contains
  finish-Later visiting id a b n (g, f) = (
    λ x h. ground (arith, g x h),
    λ x v h. elim (Bool-cases (id ≟ x)) [
      | inl e ↦ absurd (false≢true (sym n ∙ (rw (← ≟→≡ id x e) at v)))
      | inr q ↦ f x (rw q v) (rw q at h)
    ],
  )

  pub visit-Visits :
      (f : ℕ) (visiting : List String) (id : String) (st : Visit)
      → PointsInto (candidate_ids all) deps
      → contains (candidate_ids all) id ≡ true
      → Sound st
      → IfOk (Visits visiting id st) (visit target_id all deps f visiting id st)
  unfolding visit
  visit-Visits zero visiting id st g c i = tt
  visit-Visits (suc f) visiting id st g c i =
      if_cases (IfOk (Visits visiting id st)) (contains st.visited id) _ _
        (λ h. (i, h, (λ x e. e, λ x v e. e)))
        (λ fresh.
          if_cases (IfOk (Visits visiting id st)) (contains visiting id) _ _ (λ _. tt)
            (λ apart.
              IfOk-bind (VisitsAll (id ∷ visiting) (needs id) st) (Visits visiting id st) _ _
                (visit_all-VisitsAll (id ∷ visiting) (visit target_id all deps f (id ∷ visiting))
                  (needs id) st i
                  (sort_strings-All _ _ (depends_on-Within (candidate_ids all) deps id g))
                  (λ d s k j. visit-Visits f (id ∷ visiting) d s g k j))
                (λ s (j, w, l). (
                  finish-IsSound id s j c (unfinished visiting id st s fresh l) w,
                  finish-contains id s,
                  finish-Later visiting id st s apart l,
                ))))
