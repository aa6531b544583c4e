-- ===== src/Volumes/Group.antt =====
-- `planSeriesVolumes`, internal/app/volumes.go: the chapters of a series, collected in groups. A group
-- is a book, or a range of chapters of the configured length.
use serial_sync.Base.{
  ℕ, ◌+◌, ◌-◌, ◌*◌, ◌/◌, String, Bool, not, ◌&&◌, ◌||◌, Option, none, some, List, [], ◌∷◌, ◌++◌,
  ◌⧺◌, ◌≟◌, ◌==◌, is_empty, leb, ltb, if◌then◌else◌, first, Error, errorf, itoa, Matchers,
}
use serial_sync.Domain.Decision.{Sequence}
use serial_sync.Domain.Library.{PublishCandidate}
use serial_sync.Config.Series.{ChapterGap, BookConfig, SeriesConfig, SeriesOutputConfig}
use serial_sync.Volumes.Names.{volume_filename, book_volume_filename}
use serial_sync.Volumes.Check.{Chapter, VolumeGroup}

-- What a chapter says of its group: the id, the range, the gaps, the file's name and a reason against
-- a volume.
pub record Place : Type 0 where
  pub group_id : String
  pub first_chapter : ℕ
  pub last_chapter : ℕ
  pub gaps : List ChapterGap
  pub filename : String
  pub reason : String

-- The first chapter of the range with the chapter, and its last one, which the series' final chapter
-- cuts.
unfoldable pub range_first : ℕ → ℕ → ℕ
range_first per chapter = 1 + (chapter - 1) / per * per

unfoldable pub range_last : ℕ → ℕ → ℕ → ℕ
range_last per final start =
    let full = start + per - 1 in
    if ltb 0 final && ltb final full && leb start final then final else full

-- The variables of the loop over the candidates.
pub record Grouped : Type 0 where
  pub groups : List VolumeGroup
  pub has_books : Bool
  pub failures : List Error

module _ (go : Matchers) (series : SeriesConfig) (output : SeriesOutputConfig) where
  unfoldable pub place_in_range : Sequence → Place
  unfolding range_first range_last volume_filename
  place_in_range seq =
      let per = output.chapters_per_volume in
      let start = range_first per seq.chapter in
      let end = range_last per output.final_chapter start in
      record {
        group_id = "range:" ⧺ (itoa start ⧺ (":" ⧺ itoa end));
        first_chapter = start;
        last_chapter = end;
        gaps = output.intentional_gaps;
        filename = volume_filename go series.title ((start - 1) / per + 1);
        reason = "";
      }

  -- The book's range, as the configuration gives it; a book that is not there has none.
  unfoldable pub book_start : Option BookConfig → ℕ
  book_start none = 1
  book_start (some b) = if b.first_chapter == 0 then 1 else b.first_chapter

  unfoldable pub place_in_book : Sequence → Option BookConfig → Place
  unfolding book_start book_volume_filename
  place_in_book seq book =
      let start = book_start book in
      let end : ℕ = elim book [ none ↦ 0 | some b ↦ b.last_chapter ] in
      record {
        group_id = "book:" ⧺ seq.book_id;
        first_chapter = start;
        last_chapter = end;
        gaps = elim book [ none ↦ [] | some b ↦ b.intentional_gaps ];
        filename = book_volume_filename go series.title seq.book;
        reason = if ltb end start then "book endpoint is unknown" else "";
      }

  unfoldable pub place_of : Sequence → Place
  unfolding place_in_range place_in_book
  place_of seq =
      if is_empty seq.book_id
      then place_in_range seq
      else place_in_book seq (first (λ b. b.id ≟ seq.book_id) series.books)

  -- A group that the first of its chapters opens.
  unfoldable pub open_group : Place → VolumeGroup
  open_group p = record {
    gaps = p.gaps;
    plan = record {
      present = [];
      intentional_gaps = [];
      series_id = series.id;
      group_id = p.group_id;
      first = p.first_chapter;
      last = p.last_chapter;
      missing = [];
      status = "open";
      reason = p.reason;
      filename = p.filename;
    };
    chapters = [];
  }

  unfoldable pub add_chapter : Chapter → VolumeGroup → VolumeGroup
  add_chapter m g = record g { chapters = g.chapters ++ m ∷ [] }

  -- `groups[groupID]`, with the chapter added to it.
  unfoldable pub add_to_group : Place → Chapter → List VolumeGroup → List VolumeGroup
  unfolding open_group add_chapter
  add_to_group p m [] = add_chapter m (open_group p) ∷ []
  add_to_group p m (g ∷ gs) =
      let rest = add_to_group p m gs in
      if g.plan.group_id ≟ p.group_id then add_chapter m g ∷ gs else g ∷ rest

  -- The chapter goes to a volume: it has a number and does not keep to itself.
  unfoldable pub is_grouped : Sequence → Bool
  is_grouped seq = not (ltb seq.chapter 1 || seq.keep_single)

  -- `captured` is `request.chapters`, by release: the sequence and whether the chapter is a legacy
  -- one. `is_missing` says that a candidate in scope has no stored input.
  module _ (captured : String → Option (Sequence × Bool))
      (is_missing : PublishCandidate → Bool) where
    unfoldable pub group_captured : PublishCandidate → Grouped → Option (Sequence × Bool) → Grouped
    unfolding place_of add_to_group is_grouped
    group_captured c st none =
        if is_missing c
        then record st {
          failures =
              st.failures
              ++ errorf ("missing stored input for " ⧺ c.release.provider_release_id) ∷ [];
        }
        else st
    group_captured c st (some (seq, legacy)) = record st {
      has_books = st.has_books || not (is_empty seq.book_id);
      groups =
          if is_grouped seq
          then add_to_group (place_of seq)
              (record { candidate = c; sequence = seq; legacy = legacy }) st.groups
          else st.groups;
    }

    unfoldable pub group_candidates : List PublishCandidate → Grouped → Grouped
    unfolding group_captured
    group_candidates [] st = st
    group_candidates (c ∷ cs) st = group_candidates cs (
        if not (c.track.track_key ≟ series.id) || not (c.assignment.release_role ≟ "chapter")
        then st
        else group_captured c st (captured c.release.id))
