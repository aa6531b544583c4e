-- ===== src/Tests/Index.antt =====
-- Series indexes: a chapter more, and a release that changes how a series is numbered.
use serial_sync.Base.{
  map, All, ℕ, String, false, none, List, [], ◌∷◌, ◌++◌, ◌≡◌, refl, itoa, sort_by,
}
use serial_sync.Sequence.Title.{no_sequence}
use serial_sync.Sequence.Index.{IndexedRelease, TitleExpressions, coordinates_of}
use serial_sync.Sequence.Labels.{by_publication, layout_of, series_indexes}
use serial_sync.Sequence.Stable.{
  layout_for, IsLabelled, series_indexes-append, series_indexes-IsLabelled,
}

-- Titles without numbers.
abbrev re : TitleExpressions
re = record {
  book_marker = λ title. none;
  plural_chapters = λ title. none;
  dotted_chapter = λ title. none;
}

abbrev numbered : String → ℕ → ℕ → IndexedRelease
numbered id day chapter = record {
  release_id = id;
  published_at = day;
  title = "";
  sequence = record no_sequence { chapter = chapter };
}

abbrev two : List IndexedRelease
two = numbered "r2" 2 6 ∷ numbered "r1" 1 5 ∷ []

abbrev three : List IndexedRelease
three = numbered "r3" 3 0 ∷ two

two_indexes : series_indexes re two false ≡ ("r1", "5") ∷ ("r2", "6") ∷ []
unfolding series_indexes by_publication layout_of coordinates_of itoa sort_by
two_indexes = refl

-- The new release, an interlude, repeats the label before it.
three_indexes : series_indexes re three false ≡ ("r1", "5") ∷ ("r2", "6") ∷ ("r3", "6") ∷ []
unfolding series_indexes by_publication layout_of coordinates_of itoa sort_by
three_indexes = refl

three_order : by_publication three ≡ by_publication two ++ numbered "r3" 3 0 ∷ []
unfolding by_publication sort_by
three_order = refl

three_layout : layout_for re three false ≡ layout_for re two false
unfolding by_publication layout_of coordinates_of sort_by
three_layout = refl

series_indexes-append_example :
    (more : List (String × String)) × (series_indexes re three false
      ≡ series_indexes re two false ++ more)
series_indexes-append_example =
    series_indexes-append re false two three (numbered "r3" 3 0 ∷ []) three_order three_layout

-- With two releases that have no number, fewer than half have one: the release order takes over, and
-- the label of the first release changes from "5" to "1".
one_index : series_indexes re (numbered "r1" 1 5 ∷ []) false ≡ ("r1", "5") ∷ []
unfolding series_indexes by_publication layout_of coordinates_of itoa sort_by
one_index = refl

relabelled :
    series_indexes re (numbered "r1" 1 5 ∷ numbered "r2" 2 0 ∷ numbered "r3" 3 0 ∷ []) false
    ≡ ("r1", "1") ∷ ("r2", "2") ∷ ("r3", "3") ∷ []
unfolding series_indexes by_publication layout_of coordinates_of itoa sort_by
relabelled = refl

series_indexes-IsLabelled_example :
    (map (λ e. e.0) (series_indexes re three false)
      ≡ map IndexedRelease.release_id (by_publication three))
    × All IsLabelled (series_indexes re three false)
series_indexes-IsLabelled_example = series_indexes-IsLabelled re three false
