-- ===== src/Sequence/Index.antt =====
-- internal/sequence/series_index.go, `coordinatesOf`: the numbers that a series index is made of.
-- The three expressions that read a title are parameters; the two that read a label are written out.
use Prim.Native.Char.{code}
use serial_sync.Base.{
  ℕ, String, Bool, false, not, ◌&&◌, ◌||◌, Option, none, some, ◌≟◌, ◌==◌, is_empty, ltb,
  if◌then◌else◌,
}
use serial_sync.Domain.Decision.{Sequence}
use serial_sync.Sequence.Words.{is_digit, atoi}
use serial_sync.Sequence.Detect.{book_number}

pub record IndexedRelease : Type 0 where
  pub release_id : String
  pub published_at : ℕ
  pub title : String
  pub sequence : Sequence

pub record TitleExpressions : Type 0 where
  -- `bookMarker`, "B2 chapter 10" or "B2 prologue": the book and the chapter, "" where there is none.
  pub book_marker : String → Option (String × String)
  -- `pluralChapters`: the first chapter.
  pub plural_chapters : String → Option String
  -- `dottedChapter`, "Title 3.1": the number as written, the book and the chapter.
  pub dotted_chapter : String → Option (String × String × String)

-- `indexCoordinates`
pub record Coordinates : Type 0 where
  pub book : ℕ
  pub chapter : ℕ
  pub part : ℕ
  pub half : String
  pub dotted : String

-- `numbered`
unfoldable pub is_numbered : Coordinates → Bool
is_numbered c = ltb 0 c.chapter || not (is_empty c.dotted)

-- The run of digits at the start of a text, and what stands after it.
unfoldable pub leading_digits : String → String × String
unfolding is_digit
leading_digits String.[] = ("", "")
leading_digits (String.◌∷◌ c s) =
    let (digits, rest) = leading_digits s in
    if is_digit (code c) then (String.◌∷◌ c digits, rest) else ("", String.◌∷◌ c s)

-- A dot and a run of digits, the end of `decimalLabel`.
unfoldable pub is_fraction : String → Bool
unfolding leading_digits
is_fraction String.[] = false
is_fraction (String.◌∷◌ c s) =
    let (digits, rest) = leading_digits s in code c == 46 && not (is_empty digits) && is_empty rest

-- The chapter that a label with no whole number stands for: `decimalLabel`, `leadingNumber`.
unfoldable pub with_label : String → Coordinates → Coordinates
unfolding leading_digits is_fraction book_number
with_label label c =
    let (digits, rest) = leading_digits label in
    if is_empty digits
    then c
    else if is_fraction rest
    then if ltb 0 (book_number digits)
      then record c { chapter = book_number digits; half = label }
      else c
    else record c { chapter = book_number digits }

-- A bare "3.1" in the title is the author's book and chapter.
unfoldable pub with_dotted : Option (String × String × String) → String → Coordinates → Coordinates
unfolding with_label book_number
with_dotted none label c = with_label label c
with_dotted (some (written, book, chapter)) label c = record c {
  book = book_number book;
  chapter = book_number chapter;
  dotted = written;
}

unfoldable pub with_title : TitleExpressions → String → Sequence → Coordinates → Coordinates
unfolding with_dotted with_label
with_title re title seq c =
    if c.book == 0 && (is_empty seq.chapter_label || seq.matched_text ≟ seq.chapter_label)
    then with_dotted (re.dotted_chapter title) seq.chapter_label c
    else with_label seq.chapter_label c

-- "Chapters 3 and 4" is chapter 3.
unfoldable pub with_plural :
    TitleExpressions → Option String → String → Sequence → Coordinates → Coordinates
unfolding with_title book_number
with_plural re none title seq c = with_title re title seq c
with_plural re (some digits) title seq c =
    if is_empty seq.chapter_label
    then record c { chapter = book_number digits }
    else with_title re title seq c

-- The book of the title, where the sequence has none.
unfoldable pub with_marker : Option (String × String) → Coordinates → Coordinates
unfolding book_number
with_marker none c = c
with_marker (some (book, chapter)) c =
    if c.book == 0
    then record c {
      book = book_number book;
      chapter = if c.chapter == 0 && not (is_empty chapter) then book_number chapter else c.chapter;
    }
    else c

-- `strconv.Atoi(seq.Part)`
unfoldable pub part_number : String → ℕ
unfolding atoi
part_number part = elim (atoi part) [ some n ↦ n | none ↦ 0 ]

-- `coordinatesOf`
unfoldable pub coordinates_of : TitleExpressions → IndexedRelease → Coordinates
unfolding with_marker with_plural part_number
coordinates_of re release =
    let seq = release.sequence in
    let title = release.title in
    let c = with_marker (re.book_marker title) (record {
      book = seq.book;
      chapter = seq.chapter;
      part = part_number seq.part;
      half = "";
      dotted = "";
    }) in
    if ltb 0 c.chapter then c else with_plural re (re.plural_chapters title) title seq c
