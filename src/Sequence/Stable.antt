-- ===== src/Sequence/Stable.antt =====
-- internal/sequence/series_index.go: when a new release leaves the earlier labels alone.
use serial_sync.Base.{
  if_cases, false, is_empty, All, ◌+◌, String, Bool, List, [], ◌∷◌, ◌++◌, ◌≡◌, refl, ap, map,
}
use serial_sync.Sequence.Index.{IndexedRelease, TitleExpressions, coordinates_of}
use serial_sync.Sequence.Labels.{
  Layout, Labelling, own_label, inherited, label_from, layout_of, by_publication, series_indexes,
}

-- The releases published later label themselves after the earlier ones.
label_from-append :
    (layout : Layout) (re : TitleExpressions) (earlier later : List IndexedRelease) (s : Labelling)
    → (more : List (String × String)) × (label_from layout re (earlier ++ later) s
        ≡ label_from layout re earlier s ++ more)
unfolding label_from
label_from-append layout re [] later s = (label_from layout re later s, refl)
label_from-append layout re (r ∷ earlier) later s =
    let (own, book) = own_label layout (coordinates_of re r) s in
    let label = inherited own s.last in
    let (more, e) =
      label_from-append layout re earlier later
        (record { index = s.index + 1; last = label; book = book }) in
    (more, ap (λ rest. (r.release_id, label) ∷ rest) e)

-- How `SeriesIndexes` numbers a set of releases.
abbrev pub layout_for : TitleExpressions → List IndexedRelease → Bool → Layout
layout_for re releases by_release =
    layout_of by_release (map (coordinates_of re) (by_publication releases))

-- As long as releases that are published later leave the series' mode of numbering as it is, and
-- whether chapters restart in each book, they relabel none of the earlier releases.
pub series_indexes-append :
    (re : TitleExpressions) (by_release : Bool) (old new later : List IndexedRelease)
    → by_publication new ≡ by_publication old ++ later
    → layout_for re new by_release ≡ layout_for re old by_release
    → (more : List (String × String)) × (series_indexes re new by_release
        ≡ series_indexes re old by_release ++ more)
unfolding series_indexes
series_indexes-append re by_release old new later order layout =
    let start : Labelling = record { index = 0; last = ""; book = 1 } in
    let (more, e) =
      label_from-append (layout_for re old by_release) re (by_publication old) later start in
    (more, rw (layout, order) e)

inherited-is_empty : (label last : String) → is_empty (inherited label last) ≡ false
unfolding inherited
inherited-is_empty label last =
    if_cases (λ t. is_empty t ≡ false) (is_empty label) _ _
      (λ _. if_cases (λ t. is_empty t ≡ false) (is_empty last) _ _ (λ _. refl) (λ n. n)) (λ n. n)

label_from_ids :
    (layout : Layout) (re : TitleExpressions) (releases : List IndexedRelease) (s : Labelling)
    → map (λ e. e.0) (label_from layout re releases s) ≡ map IndexedRelease.release_id releases
unfolding label_from
label_from_ids layout re [] s = refl
label_from_ids layout re (r ∷ releases) s =
    let (own, book) = own_label layout (coordinates_of re r) s in
    let next : Labelling = record {
      index = s.index + 1;
      last = inherited own s.last;
      book = book;
    } in
    ap (λ rest. r.release_id ∷ rest) (label_from_ids layout re releases next)

-- The label of an entry is not empty.
abbrev pub IsLabelled : String × String → Type 0
IsLabelled e = is_empty e.1 ≡ false

label_from-IsLabelled :
    (layout : Layout) (re : TitleExpressions) (releases : List IndexedRelease) (s : Labelling)
    → All IsLabelled (label_from layout re releases s)
unfolding label_from
label_from-IsLabelled layout re [] s = tt
label_from-IsLabelled layout re (r ∷ releases) s =
    let (own, book) = own_label layout (coordinates_of re r) s in
    let next : Labelling = record {
      index = s.index + 1;
      last = inherited own s.last;
      book = book;
    } in
    (inherited-is_empty own s.last, label_from-IsLabelled layout re releases next)

-- Each release gets a label that is not empty, in the order of publication: also one that the author
-- did not number, and the first one of a series.
pub series_indexes-IsLabelled :
    (re : TitleExpressions) (releases : List IndexedRelease) (by_release : Bool)
    → (map (λ e. e.0) (series_indexes re releases by_release)
        ≡ map IndexedRelease.release_id (by_publication releases))
      × All IsLabelled (series_indexes re releases by_release)
unfolding series_indexes
series_indexes-IsLabelled re releases by_release =
    let start : Labelling = record { index = 0; last = ""; book = 1 } in
    let layout : Layout = layout_for re releases by_release in
    (
      label_from_ids layout re (by_publication releases) start,
      label_from-IsLabelled layout re (by_publication releases) start,
    )
