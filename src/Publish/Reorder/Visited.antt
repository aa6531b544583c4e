-- ===== src/Publish/Reorder/Visited.antt =====
-- What the depth-first visit of `Reorder` keeps: each candidate stands behind what it depends on.
use serial_sync.Base.{
  String, true, false, Option, none, some, List, [], ◌∷◌, ◌++◌, ◌≡◌, refl, ◌⊎◌, inl, inr, ◌≟◌,
  Bool-cases, ≟→≡, false≢true, All, In, contains, Within,
}
use serial_sync.Domain.Library.{PublishCandidate}
use serial_sync.Publish.Filesystem.Order.{Visit, candidate_ids, by_id}

-- The ids once a list of candidates is delivered, the last one first.
abbrev pub seen_after : List String → List PublishCandidate → List String
seen_after seen [] = seen
seen_after seen (c ∷ cs) = seen_after (c.artifact.id ∷ seen) cs

-- Each candidate is delivered once, and behind everything that it needs.
abbrev pub IsDeliveryOrder : (String → List String) → List String → List PublishCandidate → Type 0
IsDeliveryOrder needs seen [] = Unit
IsDeliveryOrder needs seen (c ∷ cs) =
    (contains seen c.artifact.id ≡ false)
    × Within seen (needs c.artifact.id)
    × IsDeliveryOrder needs (c.artifact.id ∷ seen) cs

pub seen_after-append :
    (seen : List String) (cs : List PublishCandidate) (c : PublishCandidate)
    → seen_after seen (cs ++ c ∷ []) ≡ c.artifact.id ∷ seen_after seen cs
seen_after-append seen [] c = refl
seen_after-append seen (d ∷ cs) c = seen_after-append (d.artifact.id ∷ seen) cs c

pub IsDeliveryOrder-append :
    (needs : String → List String) (seen : List String) (cs : List PublishCandidate)
    (c : PublishCandidate)
    → IsDeliveryOrder needs seen cs
    → contains (seen_after seen cs) c.artifact.id ≡ false
    → Within (seen_after seen cs) (needs c.artifact.id)
    → IsDeliveryOrder needs seen (cs ++ c ∷ [])
IsDeliveryOrder-append needs seen [] c h n w = (n, w, tt)
IsDeliveryOrder-append needs seen (d ∷ cs) c (a, b, h) n w =
    (a, b, IsDeliveryOrder-append needs (d.artifact.id ∷ seen) cs c h n w)

-- The candidate that a lookup by id has found.
abbrev pub IsFound : List PublishCandidate → String → Option PublishCandidate → Type 0
IsFound all id none = ⊥
IsFound all id (some c) = (c.artifact.id ≡ id) × In c all

pub by_id-IsFound :
    (all cs : List PublishCandidate) (id : String) (found : Option PublishCandidate)
    → All (λ c. In c all) cs
    → IsFound all id found ⊎ (contains (candidate_ids cs) id ≡ true)
    → IsFound all id (by_id cs id found)
unfolding by_id contains candidate_ids
by_id-IsFound all [] id found m (inl h) = h
by_id-IsFound all [] id found m (inr h) = absurd (false≢true h)
by_id-IsFound all (c ∷ cs) id found (m, ms) h = elim (Bool-cases (c.artifact.id ≟ id)) [
  | inl t ↦ rw t (by_id-IsFound all cs id (some c) ms (inl (≟→≡ c.artifact.id id t, m)))
  | inr f ↦
      rw f (by_id-IsFound all cs id found ms (elim h [ inl k ↦ inl k | inr k ↦ inr (rw f at k) ]))
]

-- What a visit keeps of its state.
pub record IsSound (needs : String → List String) (all : List PublishCandidate) (st : Visit)
    : Type 0 where
  pub order : IsDeliveryOrder needs [] st.ordered
  pub seen : seen_after [] st.ordered ≡ st.visited
  pub known : All (λ c. In c all) st.ordered

-- From one state to the next: nothing is forgotten, and nothing on the stack of calls is finished.
abbrev pub Later : List String → Visit → Visit → Type 0
Later visiting st st' =
    ((x : String) → contains st.visited x ≡ true → contains st'.visited x ≡ true)
    × ((x : String)
        → contains visiting x ≡ true
        → contains st'.visited x ≡ true
        → contains st.visited x ≡ true)

pub Later-trans :
    (visiting : List String) (a b c : Visit)
    → Later visiting a b
    → Later visiting b c
    → Later visiting a c
Later-trans visiting a b c (g, f) (g', f') = (λ x h. g' x (g x h), λ x v h. f x v (f' x v h))
