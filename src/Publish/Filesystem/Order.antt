-- ===== src/Publish/Filesystem/Order.antt =====
-- `FilesystemTarget.Reorder`: a candidate that overwrites a delivered volume goes behind the
-- candidates that cover the volume's members, by a depth-first visit that refuses a cycle.
use serial_sync.Base.{
  ℕ, zero, suc, ◌+◌, String, Bool, not, ◌||◌, Option, none, some, List, [], ◌∷◌, ◌++◌, ◌⧺◌, ◌≟◌,
  is_empty, if◌then◌else◌, any, length, contains, errorf, cyclic_replacement, Result, ok, err,
  ◌>>=◌, sort_strings,
}
use serial_sync.Domain.Library.{
  PublishCandidate, PublishRecordBundle, VolumeEdition, is_published, release_ids,
}
use serial_sync.Publish.Target.{Dependencies, depends_on, add_dependency}

-- `members[artifactID]`: the releases of every edition with that artifact.
unfoldable pub edition_members : List VolumeEdition → String → List String
edition_members [] id = []
edition_members (v ∷ volumes) id =
    let rest = edition_members volumes id in
    if v.artifact.id ≟ id then release_ids v.members ++ rest else rest

-- The candidate stands for the release: its own, or one of its volume's members.
unfoldable pub covers_release : PublishCandidate → String → Bool
covers_release c id = elim c.volume [
  | none ↦ c.release.id ≟ id
  | some v ↦ any (λ m. m.release_id ≟ id) v.members
]

-- `byRelease[releaseID]`: the last candidate that stands for the release wins; "" if there is none.
unfoldable pub by_release : List PublishCandidate → String → String → String
by_release [] id found = found
by_release (c ∷ cs) id found =
    by_release cs id (if covers_release c id then c.artifact.id else found)

-- `byID[id]`: the last candidate with that artifact.
unfoldable pub by_id :
    List PublishCandidate → String → Option PublishCandidate → Option PublishCandidate
by_id [] id found = found
by_id (c ∷ cs) id found = by_id cs id (if c.artifact.id ≟ id then some c else found)

module _ (target_id : String) (ref : PublishCandidate → String) (all : List PublishCandidate) where
  -- The innermost loop: one dependency for each release of the overwritten volume.
  unfoldable pub depend_members :
      PublishCandidate → List String → Dependencies → Result Dependencies
  depend_members c [] deps = ok deps
  depend_members c (id ∷ ids) deps =
      let replacement = by_release all id "" in
      let rest = depend_members c ids (
        if replacement ≟ c.artifact.id
        then deps
        else add_dependency deps c.artifact.id replacement) in
      if is_empty replacement
      then err (
          errorf (
            "target "
            ⧺ (target_id ⧺ (": replacement for " ⧺ (ref c ⧺ (" does not cover chapter " ⧺ id))))))
      else rest

  unfoldable pub depend_records :
      List VolumeEdition
      → PublishCandidate
      → List PublishRecordBundle
      → Dependencies
      → Result Dependencies
  depend_records volumes c [] deps = ok deps
  depend_records volumes c (old ∷ records) deps =
      if not (is_published old.record_.status)
        || not (old.record_.target_ref ≟ ref c)
        || old.artifact.id ≟ c.artifact.id
      then depend_records volumes c records deps
      else do
        deps' ← depend_members c (edition_members volumes old.artifact.id) deps
        depend_records volumes c records deps'

  unfoldable pub depend_candidates :
      List VolumeEdition
      → List PublishRecordBundle
      → List PublishCandidate
      → Dependencies
      → Result Dependencies
  depend_candidates volumes records [] deps = ok deps
  depend_candidates volumes records (c ∷ cs) deps = do
    deps' ← depend_records volumes c records deps
    depend_candidates volumes records cs deps'

-- The state of the visit: the ids that are done, and the delivery order so far.
pub record Visit : Type 0 where
  pub visited : List String
  pub ordered : List PublishCandidate

module _ (target_id : String) (all : List PublishCandidate) (deps : Dependencies) where
  -- `visited[id], visiting[id] = true, false; ordered = append(ordered, byID[id])`. Every visited id
  -- is a candidate's, so the lookup finds one.
  unfoldable pub finish : String → Visit → Visit
  finish id st = record {
    visited = id ∷ st.visited;
    ordered = elim (by_id all id none) [ none ↦ st.ordered | some c ↦ st.ordered ++ c ∷ [] ];
  }

  -- The loop over the dependencies, with the visit itself as an argument.
  unfoldable pub visit_all : (String → Visit → Result Visit) → List String → Visit → Result Visit
  visit_all visit [] st = ok st
  visit_all visit (id ∷ ids) st = do st' ← visit id st; visit_all visit ids st'

  -- `visiting` holds the ids on the stack of calls. The fuel bounds the depth of the calls.
  unfoldable pub visit : ℕ → List String → String → Visit → Result Visit
  visit zero visiting id st = err (errorf "out of fuel")
  visit (suc f) visiting id st =
      let deeper = visit_all (visit f (id ∷ visiting)) (sort_strings (depends_on deps id)) st in
      if contains st.visited id
      then ok st
      else if contains visiting id
      then err (cyclic_replacement target_id)
      else (do st' ← deeper; ok (finish id st'))

unfoldable pub candidate_ids : List PublishCandidate → List String
candidate_ids [] = []
candidate_ids (c ∷ cs) = c.artifact.id ∷ candidate_ids cs

-- The map's lists, sorted in place by the visits.
unfoldable pub sort_dependencies : Dependencies → Dependencies
sort_dependencies [] = []
sort_dependencies ((k, ids) ∷ m) = (k, sort_strings ids) ∷ sort_dependencies m

unfoldable pub reorder :
    String
    → (PublishCandidate → String)
    → List PublishCandidate
    → List PublishRecordBundle
    → List VolumeEdition
    → Result (List PublishCandidate × Dependencies)
reorder target_id ref candidates records volumes = do
  deps ← depend_candidates target_id ref candidates volumes records candidates []
  st ←
      visit_all target_id candidates deps
        (visit target_id candidates deps (length candidates + 2) []) (candidate_ids candidates)
        (record { visited = []; ordered = [] })
  ok (st.ordered, sort_dependencies deps)
