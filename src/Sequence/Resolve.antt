-- ===== src/Sequence/Resolve.antt =====
-- internal/sequence/sequence.go, `ApplyDetected` and `Resolve`. An `int` is a natural number: the
-- sums below are those of Go as long as they stay under 2^63.
use serial_sync.Base.{
  ℕ, ◌+◌, ◌-◌, String, Bool, true, not, ◌&&◌, ◌||◌, Option, none, some, List, [], ◌∷◌, ◌⧺◌, itoa,
  ◌≟◌, ◌==◌, ltb, leb, is_empty, if◌then◌else◌, first, sort_by,
}
use serial_sync.Config.Series.{SequenceOverride, BookConfig, SeriesConfig}
use serial_sync.Domain.Decision.{Sequence, TrackDecision}

-- `book.FirstChapter`, 1 if it is not set.
unfoldable pub first_of_book : BookConfig → ℕ
first_of_book b = if b.first_chapter == 0 then 1 else b.first_chapter

-- `sequence.ChapterLabel != "" || sequence.Part != ""`
unfoldable pub is_extended : Sequence → Bool
is_extended s = not (is_empty s.chapter_label) || not (is_empty s.part)

-- The numbering jumps at a book. `previous` is the number of the book before it, if there is one.
unfoldable pub jumps : Option ℕ → BookConfig → Bool
jumps none b = not (b.number == 1)
jumps (some n) b = not (b.number == n + 1)

-- The series position at which a book starts: 0 where it is not known.
unfoldable pub start_position : Option ℕ → ℕ → BookConfig → ℕ
unfolding jumps first_of_book
start_position previous position b =
    if ltb 0 b.series_position_start
    then b.series_position_start
    else if ltb 1 (first_of_book b)
    then first_of_book b
    else if jumps previous b
    then 0
    else position

-- The position after a book.
unfoldable pub next_position : ℕ → BookConfig → ℕ
unfolding first_of_book
next_position position b =
    if ltb b.last_chapter (first_of_book b)
    then 0
    else if ltb 0 position
    then position + (b.last_chapter - first_of_book b + 1)
    else position

-- Where a later book declares that it starts: 0 where it does not.
unfoldable pub declared_start : BookConfig → ℕ
declared_start b =
    if b.series_position_start == 0 && ltb 1 b.first_chapter
    then b.first_chapter
    else b.series_position_start

-- The loop over the later books: the first one whose range the position reaches.
unfoldable pub overlapped : ℕ → List BookConfig → Option BookConfig
unfolding declared_start
overlapped position [] = none
overlapped position (b ∷ books) =
    if ltb 0 (declared_start b) && leb (declared_start b) position
    then some b
    else overlapped position books

unfoldable pub outside_range : BookConfig → ℕ → Bool
unfolding first_of_book
outside_range b chapter =
    ltb chapter (first_of_book b) || (ltb 0 b.last_chapter && ltb b.last_chapter chapter)

-- `position + sequence.Chapter - first`, where the chapter has a place; otherwise `Position` stays 0.
unfoldable pub place : ℕ → BookConfig → Sequence → ℕ
place position b s =
    if ltb 0 position && leb (first_of_book b) s.chapter && not (is_extended s)
    then position + s.chapter - first_of_book b
    else 0

-- What the first later book that the position reaches makes of a placed sequence.
unfoldable pub settle_overlap : Option BookConfig → Sequence → Sequence
settle_overlap (some l) placed = record placed {
  position = 0;
  keep_single = true;
  reason = "chapter overlaps the series position range of book " ⧺ l.id;
}
settle_overlap none placed =
    if placed.position == 0 && not (is_extended placed)
    then record placed { reason = "missing earlier book range or series_position_start" }
    else placed

-- The round that finds the sequence's book, with the position at which the book starts.
unfoldable pub resolve_in_book : ℕ → BookConfig → List BookConfig → Sequence → Sequence
resolve_in_book position b later sequence =
    let s = record sequence { book_id = b.id; book = b.number } in
    let q = place position b sequence in
    if outside_range b sequence.chapter
    then record s { keep_single = true; reason = "chapter is outside the declared book range" }
    else settle_overlap (overlapped q later) (record s { position = q })

-- The book is the sequence's: by id where one is given, else by number.
unfoldable pub is_book : String → ℕ → BookConfig → Bool
is_book book_id number b = b.id ≟ book_id || (is_empty book_id && b.number == number)

-- `!(sequence.Book == 0 && bookID == "")`: the sequence has a book, by number or by id.
unfoldable pub has_book : String → ℕ → Bool
has_book book_id number = not (number == 0 && is_empty book_id)

-- The sequence as `Resolve` sets it up: the chapter is the position until a book is known.
unfoldable pub entered : Sequence → String → Sequence
entered sequence book_id = record sequence {
  position = if is_extended sequence then 0 else sequence.chapter;
  book_id = if is_empty book_id then sequence.book_id else book_id;
  origin = if is_empty book_id || sequence.origin ≟ "override" then sequence.origin else "input";
}

-- The loop over the books in order of their numbers.
unfoldable pub resolve_books : String → Sequence → Option ℕ → ℕ → List BookConfig → Sequence
resolve_books book_id s previous position [] = record s {
  book_id = if is_empty s.book_id then "book:" ⧺ itoa s.book else s.book_id;
  reason = "book requires an explicit expected chapter range";
}
resolve_books book_id s previous position (b ∷ books) =
    let start = start_position previous position b in
    let rest = resolve_books book_id s (some b.number) (next_position start b) books in
    if is_book book_id s.book b then resolve_in_book start b books s else rest

unfoldable pub resolve : SeriesConfig → Sequence → String → Sequence
resolve series sequence book_id =
    let s = entered sequence book_id in
    if not (has_book book_id sequence.book)
    then (if ltb 0 series.output.final_chapter && ltb series.output.final_chapter s.chapter
        then record s { keep_single = true; reason = "chapter exceeds final_chapter" }
        else s)
    else resolve_books book_id (record s { position = 0 }) none 1
        (sort_by (λ a b. ltb a.number b.number) series.books)

-- One round of the loop over the overrides, on the sequence and the book's id.
unfoldable pub apply_override : Sequence × String → SequenceOverride → Sequence × String
apply_override (s, book_id) o =
    let kept = record s { origin = "override"; keep_single = s.keep_single || o.keep_single } in
    (
      (if ltb 0 o.chapter
          then record kept {
            chapter = o.chapter;
            keep_single = o.keep_single;
            chapter_label = "";
            part = "";
            reason = "";
            matched_text = "";
          }
          else kept),
      (if is_empty o.book_id then book_id else o.book_id),
    )

unfoldable pub apply_overrides :
    String → String → List SequenceOverride → Sequence × String → Sequence × String
unfolding apply_override
apply_overrides source_id release_id [] state = state
apply_overrides source_id release_id (o ∷ overrides) state =
    apply_overrides source_id release_id overrides (
      if not (o.source ≟ source_id) || not (o.release_id ≟ release_id)
      then state
      else apply_override state o)

-- `config.SeriesConfig{}`
abbrev pub no_series : SeriesConfig
no_series = record {
  source = "";
  sequence_overrides = [];
  id = "";
  title = "";
  authors = [];
  output = record {
    final_chapter = 0;
    intentional_gaps = [];
    format = "";
    preface_mode = "";
    bundling = "";
    series_index = "";
    chapters_per_volume = 0;
  };
  books = [];
}

unfoldable pub find_series : List SeriesConfig → String → SeriesConfig
find_series all id = elim (first (λ (s : SeriesConfig). s.id ≟ id) all) [
  | none ↦ no_series
  | some s ↦ s
]

-- A chapter kept single has a reason.
unfoldable pub explained : Sequence → Sequence
explained s =
    if s.keep_single && is_empty s.reason
    then record s { reason = "explicitly kept as a single" }
    else s

-- The overrides, the resolution and the reason.
unfoldable pub detected_sequence : SeriesConfig → String → String → String → Sequence → Sequence
detected_sequence series source_id release_id book_id sequence =
    let state =
      apply_overrides source_id release_id series.sequence_overrides (sequence, book_id) in
    explained (resolve series state.0 state.1)

-- `ApplyDetected`, on the series of the configuration.
unfoldable pub apply_detected :
    List SeriesConfig → String → String → TrackDecision → Sequence → TrackDecision
apply_detected all source_id release_id decision sequence = record decision {
  sequence = some (
      detected_sequence (find_series all decision.series_id) source_id release_id decision.book_id
        sequence);
}
