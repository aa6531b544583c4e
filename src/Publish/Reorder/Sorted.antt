-- ===== src/Publish/Reorder/Sorted.antt =====
-- `FilesystemTarget.Reorder`: the order that it returns, and that it returns.
use mathlib.Core.Path.{subst}
use serial_sync.Base.{
  suc, ◌+◌, String, Bool, true, false, ◌||◌, List, [], ◌∷◌, ◌≡◌, refl, ap, inl, inr, ◌≟◌,
  Bool-cases, All, All-imp, In, contains, length, Within, Within-self, ok, IfOk-bind, IfOk-ok,
  sort_strings, sort_by, arith,
}
use serial_sync.Domain.Library.{PublishCandidate, PublishRecordBundle, VolumeEdition}
use serial_sync.Publish.Target.{Dependencies, depends_on}
use serial_sync.Publish.Filesystem.Order.{
  Visit, candidate_ids, visit, depend_candidates, sort_dependencies, reorder,
}
use serial_sync.Publish.Reorder.Graph.{PointsInto, depend_candidates-IsGraph}
use serial_sync.Publish.Reorder.Visited.{seen_after, IsDeliveryOrder, IsSound}
use serial_sync.Publish.Reorder.Ends.{IsEnded, IsEnded-bind, visit_all-IsEnded, visit-IsEnded}
use serial_sync.Publish.Reorder.Visits.{VisitsAll, visit_all-VisitsAll, visit-Visits}

sort_strings_nil : sort_strings [] ≡ []
unfolding sort_strings sort_by
sort_strings_nil = refl

depends_on-sort_dependencies :
    (deps : Dependencies) (k : String)
    → sort_strings (depends_on deps k) ≡ depends_on (sort_dependencies deps) k
unfolding depends_on sort_dependencies
depends_on-sort_dependencies [] k = sort_strings_nil
depends_on-sort_dependencies ((j, ids) ∷ deps) k = elim (Bool-cases (j ≟ k)) [
  | inl e ↦ rw e refl
  | inr n ↦ rw n (depends_on-sort_dependencies deps k)
]

IsDeliveryOrder-along :
    (a b : String → List String) (seen : List String) (cs : List PublishCandidate)
    → ((k : String) → a k ≡ b k)
    → IsDeliveryOrder a seen cs
    → IsDeliveryOrder b seen cs
IsDeliveryOrder-along a b seen [] e h = tt
IsDeliveryOrder-along a b seen (c ∷ cs) e (n, w, h) = (
  n,
  subst (Within seen) (e c.artifact.id) w,
  IsDeliveryOrder-along a b (c.artifact.id ∷ seen) cs e h,
)

contains-seen_after :
    (seen : List String) (cs : List PublishCandidate) (x : String)
    → contains (seen_after seen cs) x ≡ true
    → (contains (candidate_ids cs) x || contains seen x) ≡ true
unfolding candidate_ids contains
contains-seen_after seen [] x h = h
contains-seen_after seen (c ∷ cs) x h =
    ground (arith, contains-seen_after (c.artifact.id ∷ seen) cs x h)

abbrev start : Visit
start = record { visited = []; ordered = [] }

-- The order, and which candidates it has.
abbrev pub IsReordered : List PublishCandidate → List PublishCandidate × Dependencies → Type 0
IsReordered candidates (ordered, dependencies) =
    IsDeliveryOrder (depends_on dependencies) [] ordered
    × All (λ c. In c candidates) ordered
    × Within (candidate_ids ordered) (candidate_ids candidates)

||_true_left : (b : Bool) → (b || false) ≡ true → b ≡ true
||_true_left b h = ground arith

delivered-contains :
    (wants : String → List String) (all : List PublishCandidate) (st : Visit) (x : String)
    → IsSound wants all st
    → contains st.visited x ≡ true
    → contains (candidate_ids st.ordered) x ≡ true
unfolding contains
delivered-contains wants all st x s h =
    let k : (contains (candidate_ids st.ordered) x || false) ≡ true =
      contains-seen_after [] st.ordered x (rw (s.seen) h) in
    ||_true_left (contains (candidate_ids st.ordered) x) k

visited-IsReordered :
    (target_id : String) (all : List PublishCandidate) (deps : Dependencies) (a b : Visit)
    → VisitsAll target_id all deps [] (candidate_ids all) a b
    → IsReordered all (b.ordered, sort_dependencies deps)
visited-IsReordered target_id all deps a b (s, w, l) = (
  IsDeliveryOrder-along _ _ [] b.ordered (depends_on-sort_dependencies deps) s.order,
  s.known,
  All-imp _ _ (λ x e. delivered-contains _ all b x s e) (candidate_ids all) w,
)

-- If `Reorder` returns, then each candidate of the order is one of those given and stands there once,
-- none of those given is missing by its artifact's id, and every dependency of an artifact that is
-- returned beside the order stands before it.
pub reorder-IsReordered :
    (target_id : String) (ref : PublishCandidate → String) (candidates : List PublishCandidate)
    (records : List PublishRecordBundle) (volumes : List VolumeEdition)
    (out : List PublishCandidate × Dependencies)
    → reorder target_id ref candidates records volumes ≡ ok out
    → IsReordered candidates out
unfolding reorder
reorder-IsReordered target_id ref candidates records volumes out h =
    IfOk-ok (IsReordered candidates) _ out
      (IfOk-bind (PointsInto (candidate_ids candidates)) (IsReordered candidates) _ _
        (depend_candidates-IsGraph target_id ref candidates volumes records candidates [] tt)
        (λ deps g.
          IfOk-bind (VisitsAll target_id candidates deps [] (candidate_ids candidates) start)
            (IsReordered candidates) _ _
            (visit_all-VisitsAll target_id candidates deps []
              (visit target_id candidates deps (length candidates + 2) [])
              (candidate_ids candidates) start (record { order = tt; seen = refl; known = tt })
              (Within-self (candidate_ids candidates))
              (λ id s c i.
                visit-Visits target_id candidates deps (length candidates + 2) [] id s g c i))
            (λ st v. visited-IsReordered target_id candidates deps start st v)))
      h

length-candidate_ids : (cs : List PublishCandidate) → length (candidate_ids cs) ≡ length cs
unfolding candidate_ids
length-candidate_ids [] = refl
length-candidate_ids (c ∷ cs) = ap suc (length-candidate_ids cs)

-- `Reorder` is through, or reports a cycle, once it has its dependencies: the depth-first visit never
-- uses up its fuel. Without them it has failed before, on a chapter that no candidate covers.
pub reorder-IsEnded :
    (target_id : String) (ref : PublishCandidate → String) (candidates : List PublishCandidate)
    (records : List PublishRecordBundle) (volumes : List VolumeEdition) (deps : Dependencies)
    → depend_candidates target_id ref candidates volumes records candidates [] ≡ ok deps
    → IsEnded target_id (reorder target_id ref candidates records volumes)
unfolding reorder
reorder-IsEnded target_id ref candidates records volumes deps h = rw h (
    IsEnded-bind target_id _ _
      (visit_all-IsEnded target_id candidates deps
        (visit target_id candidates deps (length candidates + 2) []) (candidate_ids candidates)
        start (Within-self (candidate_ids candidates))
        (λ id s c.
          visit-IsEnded target_id candidates deps (length candidates + 2) [] id s
            (IfOk-ok (PointsInto (candidate_ids candidates)) _ deps
              (depend_candidates-IsGraph target_id ref candidates volumes records candidates [] tt)
              h)
            (omega (arith, length-candidate_ids candidates)) tt tt c))
      (λ st. tt))
