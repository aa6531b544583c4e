-- ===== src/Sequence/Labels.antt =====
-- internal/sequence/series_index.go, `SeriesIndexes`: the label by which a reader sorts a release.
use serial_sync.Base.{
  ℕ, ◌+◌, ◌*◌, String, Bool, false, not, ◌&&◌, ◌||◌, List, [], ◌∷◌, ◌⧺◌, ◌==◌, is_empty, ltb, leb,
  max, if◌then◌else◌, map, length, select, itoa, sort_by, string_lt,
}
use serial_sync.Sequence.Index.{
  IndexedRelease, TitleExpressions, Coordinates, is_numbered, coordinates_of,
}

pub data IndexMode : Type 0 where
  chapter_mode part_mode ordinal_mode : IndexMode

-- The order of publication, by id at the same instant.
unfoldable pub published_before : IndexedRelease → IndexedRelease → Bool
published_before a b =
    if a.published_at == b.published_at
    then string_lt a.release_id b.release_id
    else ltb a.published_at b.published_at

unfoldable pub by_publication : List IndexedRelease → List IndexedRelease
unfolding published_before sort_by
by_publication releases = sort_by published_before releases

-- How many releases carry a chapter number, and how many only a part.
unfoldable pub chapters_in : List Coordinates → ℕ
unfolding is_numbered
chapters_in coords = length (select is_numbered coords)

unfoldable pub parts_in : List Coordinates → ℕ
unfolding is_numbered
parts_in coords = length (select (λ c. not (is_numbered c) && ltb 0 c.part) coords)

unfoldable pub mode_of : Bool → List Coordinates → IndexMode
unfolding chapters_in parts_in
mode_of by_release coords =
    let chapters = chapters_in coords in
    let parts = parts_in coords in
    if by_release
    then ordinal_mode
    else if leb (length coords) (chapters * 2)
    then chapter_mode
    else if ltb chapters parts && leb (length coords) ((chapters + parts) * 2)
    then part_mode
    else ordinal_mode

-- The loop of `restartsPerBook`.
unfoldable pub restarts_from : ℕ → ℕ → List Coordinates → Bool
restarts_from highest book [] = false
restarts_from highest book (c ∷ coords) =
    let new_book = not (c.chapter == 0) && ltb book c.book in
    let rest = restarts_from (max highest c.chapter) (if new_book then c.book else book) coords in
    not (is_empty c.dotted)
    || (new_book && (ltb 0 book || ltb 0 highest) && leb c.chapter highest)
    || rest

-- `restartsPerBook`
unfoldable pub restarts_per_book : List Coordinates → Bool
unfolding restarts_from
restarts_per_book = restarts_from 0 0

-- `mode` and `perBook`, which every label reads.
pub record Layout : Type 0 where
  pub mode : IndexMode
  pub per_book : Bool

unfoldable pub layout_of : Bool → List Coordinates → Layout
unfolding mode_of restarts_per_book
layout_of by_release coords = record {
  mode = mode_of by_release coords;
  per_book = elim (mode_of by_release coords) [
    | chapter_mode ↦ restarts_per_book coords
    | part_mode ↦ false
    | ordinal_mode ↦ false
  ];
}

-- What the loop carries from one release to the next.
pub record Labelling : Type 0 where
  pub index : ℕ
  pub last : String
  pub book : ℕ

-- The label of a chapter, and the book it leaves open, where numbering restarts in each book.
unfoldable pub label_in_book : Coordinates → Labelling → String × ℕ
label_in_book c s =
    if not (is_empty c.dotted)
    then (c.dotted, c.book)
    else if ltb 0 c.book && ltb 0 c.chapter
    then (itoa c.book ⧺ ("." ⧺ itoa c.chapter), c.book)
    else if ltb 0 c.chapter
    then (itoa s.book ⧺ ("." ⧺ itoa c.chapter), s.book)
    else if ltb 0 c.book && not (c.book == s.book)
    then (itoa c.book ⧺ ".0", c.book)
    else if is_empty s.last
    then (itoa s.book ⧺ ".0", s.book)
    else ("", s.book)

-- The label that a release has of its own, "" where it has none.
unfoldable pub own_label : Layout → Coordinates → Labelling → String × ℕ
unfolding label_in_book
own_label layout c s = elim layout.mode [
  | ordinal_mode ↦ (itoa (s.index + 1), s.book)
  | part_mode ↦ (if ltb 0 c.part then itoa c.part else "", s.book)
  | chapter_mode ↦ if layout.per_book then label_in_book c s else (
    if not (is_empty c.half) then c.half else if ltb 0 c.chapter then itoa c.chapter else "",
    s.book,
  )
]

-- A release without a label of its own repeats the one before it.
unfoldable pub inherited : String → String → String
inherited label last = if is_empty label then if is_empty last then "0" else last else label

-- The loop over the releases in order.
unfoldable pub label_from :
    Layout → TitleExpressions → List IndexedRelease → Labelling → List (String × String)
unfolding own_label inherited
label_from layout re [] s = []
label_from layout re (release ∷ releases) s =
    let (own, book) = own_label layout (coordinates_of re release) s in
    let label = inherited own s.last in
    (release.release_id, label)
    ∷ label_from layout re releases (record { index = s.index + 1; last = label; book = book })

-- The entries of `SeriesIndexes`, in the order in which they are written.
unfoldable pub series_indexes :
    TitleExpressions → List IndexedRelease → Bool → List (String × String)
unfolding label_from
series_indexes re releases by_release =
    let ordered = by_publication releases in
    label_from (layout_of by_release (map (coordinates_of re) ordered)) re ordered
      (record { index = 0; last = ""; book = 1 })
