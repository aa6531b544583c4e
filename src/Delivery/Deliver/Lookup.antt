-- ===== src/Delivery/Deliver/Lookup.antt =====
-- The executor's maps, internal/app/delivery.go: the candidates and the plan's items, by artifact.
use serial_sync.Base.{
  String, Bool, true, false, not, ◌&&◌, Option, none, some, List, [], ◌∷◌, ◌≟◌, if◌then◌else◌,
}
use serial_sync.Domain.Library.{PublishCandidate}
use serial_sync.Domain.Plans.{Action, unchanged, held, retire, PublishItemResult}
use serial_sync.Publish.Filesystem.Order.{by_id}

-- `byID[id]` for each id of the order. Every id there is a candidate's, so each lookup finds one.
unfoldable pub in_order : List PublishCandidate → List String → List PublishCandidate
in_order candidates [] = []
in_order candidates (id ∷ ids) =
    let rest = in_order candidates ids in
    elim (by_id candidates id none) [ none ↦ rest | some c ↦ c ∷ rest ]

abbrev is_retire : Action → Bool
is_retire a = elim a [ retire ↦ true | _ ↦ false ]

abbrev pub is_unchanged : Action → Bool
is_unchanged a = elim a [ unchanged ↦ true | _ ↦ false ]

abbrev pub is_held : Action → Bool
is_held a = elim a [ held ↦ true | _ ↦ false ]

-- `itemByID[id]`: the last item of the plan with that artifact which is not a retirement.
unfoldable pub item_by_id :
    List PublishItemResult → String → Option PublishItemResult → Option PublishItemResult
item_by_id [] id found = found
item_by_id (item ∷ items) id found =
    item_by_id items id
      (if not (is_retire item.action) && item.artifact_id ≟ id then some item else found)
