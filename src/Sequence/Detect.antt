-- ===== src/Sequence/Detect.antt =====
-- internal/sequence/detect.go, `Detect`: what the texts of a release say about its place. The five
-- regular expressions are parameters: each is the submatches that Go's `regexp` finds.
use Prim.Native.Char.{code}
use serial_sync.Base.{
  has_slash, zero, suc, ◌-◌, ℕ, ◌+◌, ◌^◌, String, Bool, true, false, not, ◌&&◌, ◌||◌, Option, none,
  some, List, [], ◌∷◌, ◌⧺◌, ◌==◌, is_empty, ltb, leb, if◌then◌else◌, contains, trim_space, Matchers,
  to_lower, runes, slice, index_of, min, max,
}
use serial_sync.Domain.Decision.{Sequence, has_chapter}
use serial_sync.Sequence.Words.{atoi}
use serial_sync.Sequence.Title.{no_sequence, parse_word_sequence}

pub record Expressions : Type 0 where
  -- `compactSequence`, "B2C10": the book, the chapter's label and the whole match.
  pub compact : String → Option (String × String × String)
  -- `explicitChapter`: the match is the first text, then the label.
  pub explicit : String → Option (String × String)
  -- `bareChapter` and `trailingDecimal`: the label and the whole match.
  pub bare : String → Option (String × String)
  pub trailing : String → Option (String × String)
  -- `namedPart`: where the match begins and ends, and the part in upper case.
  pub part : String → Option (ℕ × ℕ × String)

-- `filepath.Ext`: from the last dot after the last slash.
unfoldable pub ext : String → String
ext String.[] = ""
ext (String.◌∷◌ c s) =
    let rest = ext s in
    if is_empty rest && code c == 46 && not (has_slash s) then String.◌∷◌ c s else rest

-- The text without the ending of a file that the program delivers.
unfoldable pub stem : Matchers → String → String
unfolding ext
stem go text =
    if contains (".epub" ∷ ".pdf" ∷ ".html" ∷ ".txt" ∷ ".mobi" ∷ []) (to_lower go (ext text))
    then slice 0 (runes text - runes (ext text)) text
    else text

abbrev pub unnumbered : String
unnumbered =
    "non-integral or non-positive chapter requires an explicit override for volume coverage"

abbrev pub part_marker : String
part_marker = "part marker requires an explicit chapter override for volume coverage"

-- The label, which is no whole positive number, stands for the chapter.
unfoldable pub labelled : Sequence → String → String → Sequence
labelled info label matched = record info {
  matched_text = matched;
  chapter = 0;
  chapter_label = label;
  keep_single = true;
  reason = unnumbered;
}

-- The two outcomes of `chapterIdentity`, by the number that the label is.
unfoldable pub identified : Option ℕ → Sequence → String → String → Sequence
unfolding labelled
identified none info label matched = labelled info label matched
identified (some zero) info label matched = labelled info label matched
identified (some (suc n)) info label matched = record info {
  matched_text = matched;
  chapter = suc n;
}

-- `chapterIdentity`
unfoldable pub chapter_identity : Sequence → String → String → Sequence
unfolding identified atoi
chapter_identity info label matched = identified (atoi label) info label matched

-- `strconv.Atoi` gives the largest `int` beside its error for a number that is too large.
unfoldable pub book_number : String → ℕ
unfolding atoi
book_number digits = elim (atoi digits) [ some n ↦ n | none ↦ 2 ^ 63 - 1 ]

-- The last rune of an explicit chapter's words is a letter or a dot.
unfoldable pub ends_word : String → Bool
ends_word String.[] = false
ends_word (String.◌∷◌ c s) =
    if is_empty s
    then (leb 65 (code c) && leb (code c) 90)
      || (leb 97 (code c) && leb (code c) 122)
      || code c == 46
    else ends_word s

-- "chapter-50" separates, "Chapter -50" is a signed number.
unfoldable pub unsigned_label : String → String → String
unfolding ends_word
unsigned_label words String.[] = ""
unsigned_label words (String.◌∷◌ c s) =
    if code c == 45 && ends_word words then s else String.◌∷◌ c s

-- The text that names both the chapter and the part: from the first of the two to the last.
unfoldable pub span_of : String → ℕ → ℕ → String → String
span_of text first last matched =
    if is_empty matched then slice first last text else elim (index_of matched text) [
      | none ↦ slice first last text
      | some start ↦ slice (min first start) (max last (start + runes matched)) text
    ]

-- The named part of a text, on top of its chapter.
unfoldable pub with_part : Option (ℕ × ℕ × String) → String → Sequence → Sequence
unfolding span_of
with_part none text info = info
with_part (some (first, last, part)) text info = record info {
  part = part;
  matched_text = span_of text first last info.matched_text;
  keep_single = true;
  reason = part_marker;
}

-- `HasChapter() || Part != ""`
unfoldable pub has_place : Sequence → Bool
unfolding has_chapter
has_place s = has_chapter s || not (is_empty s.part)

-- `parsed.Book > 0`, of a 64-bit number.
abbrev pub positive_book : Sequence → Bool
positive_book s = ltb 0 s.book && ltb s.book (2 ^ 63)

-- The three steps of a round of `detectSequenceInfo`.
unfoldable pub take_book : Sequence → Sequence → Sequence
take_book parsed info =
    if info.book == 0 && positive_book parsed then record info { book = parsed.book } else info

unfoldable pub take_place : Sequence → Sequence → Sequence
unfolding has_place
take_place parsed info =
    if not (has_place info) && has_place parsed
    then if positive_book info then record parsed { book = info.book } else parsed
    else info

unfoldable pub take_part : Sequence → Sequence → Sequence
take_part parsed info =
    if is_empty info.part && not (is_empty parsed.part)
    then record info { part = parsed.part; keep_single = true; reason = parsed.reason }
    else info

-- The last resort, by what `bareChapter` and `trailingDecimal` find: a number that stands alone.
unfoldable pub parse_alone :
    Option (String × String) → Option (String × String) → Sequence → Sequence
unfolding chapter_identity trim_space
parse_alone (some (label, matched)) trailing info = chapter_identity info label (trim_space matched)
parse_alone none (some (label, matched)) info = chapter_identity info label (trim_space matched)
parse_alone none none info = info

module _ (go : Matchers) (re : Expressions) where
  -- The branches of `parseChapterIdentity`, by what `compactSequence` and `explicitChapter` find.
  unfoldable pub parse_found :
      String → Option (String × String × String) → Option (String × String) → Sequence → Sequence
  unfolding chapter_identity parse_alone book_number unsigned_label has_chapter
  parse_found text (some (book, label, matched)) explicit info =
      chapter_identity (record info { book = book_number book }) label matched
  parse_found text none (some (words, label)) info =
      chapter_identity info (unsigned_label words label) (words ⧺ label)
  parse_found text none none info =
      if has_chapter info then info else parse_alone (re.bare text) (re.trailing text) info

  -- `parseChapterIdentity`
  unfoldable pub parse_chapter_identity : String → Sequence
  unfolding parse_word_sequence parse_found
  parse_chapter_identity text =
      parse_found text (re.compact text) (re.explicit text) (parse_word_sequence text)

  -- `parseSequenceInfo`
  unfoldable pub parse_sequence_info : String → Sequence
  unfolding parse_chapter_identity with_part stem
  parse_sequence_info text =
      let base = stem go text in with_part (re.part base) base (parse_chapter_identity base)

  unfoldable pub detect_from : List String → Sequence → Sequence
  unfolding parse_sequence_info take_book take_place take_part
  detect_from [] info = info
  detect_from (text ∷ texts) info =
      let parsed = parse_sequence_info text in
      detect_from texts (take_part parsed (take_place parsed (take_book parsed info)))

  -- `Detect`
  unfoldable pub detect : List String → Sequence
  unfolding detect_from
  detect texts = detect_from texts no_sequence
