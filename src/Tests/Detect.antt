-- ===== src/Tests/Detect.antt =====
-- Titles: numbers in words, and a part beside a chapter.
use serial_sync.Base.{
  contains, to_lower, index_of, slice, runes, ◌≤◌, String, true, none, some, List, [], ◌∷◌, ◌≡◌,
  refl, ◌≟◌, if◌then◌else◌, length,
}
use serial_sync.Sequence.Words.{parse_number_tokens}
use serial_sync.Sequence.WordBounds.{parse_number_tokens-Within}
use serial_sync.Sequence.Title.{no_sequence}
use serial_sync.Sequence.Detect.{Expressions, part_marker, detect}
use serial_sync.Sequence.Consistent.{IsConsistent, detect-IsConsistent}
use serial_sync.Tests.Classify.{go}

abbrev tokens : List String
tokens = "one" ∷ "hundred" ∷ "and" ∷ "five" ∷ "wolves" ∷ []

parsed : parse_number_tokens tokens ≡ some (105, 4)
unfolding parse_number_tokens
parsed = refl

parse_number_tokens-Within_example : (1 ≤ 4) × (4 ≤ length tokens)
parse_number_tokens-Within_example = parse_number_tokens-Within tokens 105 4 parsed

abbrev title : String
title = "Book Two, Chapter Nine [Part 2]"

-- What the expressions find in the titles below.
abbrev re : Expressions
re = record {
  compact = λ text. none;
  explicit = λ text. none;
  bare = λ text. none;
  trailing = λ text. none;
  part = λ text. if text ≟ title then some (23, 31, "2") else none;
}

detected : detect go re ("Home" ∷ title ∷ []) ≡ record no_sequence {
  book = 2;
  chapter = 9;
  part = "2";
  matched_text = "Chapter Nine [Part 2]";
  keep_single = true;
  reason = part_marker;
}
unfolding detect contains to_lower index_of slice runes
detected = refl

detect-IsConsistent_example : IsConsistent (detect go re ("Home" ∷ title ∷ []))
detect-IsConsistent_example = detect-IsConsistent go re ("Home" ∷ title ∷ [])
