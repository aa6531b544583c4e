-- ===== src/Sequence/Title.antt =====
-- internal/sequence/detect.go, `parseWordSequence`: "book two", "chapter one hundred", "3rd chapter".
use Prim.Native.Char.{Char, code}
use serial_sync.Base.{
  ℕ, zero, suc, ◌-◌, String, true, false, ◌&&◌, Option, none, some, List, [], ◌∷◌, ◌⧺◌, ◌==◌,
  is_empty, if◌then◌else◌, contains, map, leb, ◌≡◌, refl,
}
use serial_sync.Domain.Decision.{Sequence}
use serial_sync.Sequence.Words.{is_token_rune, parse_number_tokens, parse_simple_number}

-- `sequenceInfo{}`
abbrev pub no_sequence : Sequence
no_sequence = record {
  chapter_label = "";
  part = "";
  matched_text = "";
  keep_single = false;
  book = 0;
  book_id = "";
  chapter = 0;
  position = 0;
  series_index = "";
  origin = "";
  reason = "";
}

-- A token of the title: what stands between the token before it and this one, and the token.
pub record Piece : Type 0 where
  pub gap : String
  pub word : String

abbrev one : Char → String
one c = String.◌∷◌ c ""

-- `FindAllStringIndex` of `[A-Za-z0-9]+`, with the gap and the token so far.
unfoldable pub pieces_from : String → String → String → List Piece
unfolding is_token_rune
pieces_from gap word String.[] =
    if is_empty word then [] else record { gap = gap; word = word } ∷ []
pieces_from gap word (String.◌∷◌ c s) = elim (is_token_rune (code c)) [
  | true ↦ pieces_from gap (word ⧺ one c) s
  | false ↦ elim (is_empty word) [
    | true ↦ pieces_from (gap ⧺ one c) word s
    | false ↦ record { gap = gap; word = word } ∷ pieces_from (one c) "" s
  ]
]

-- The character at an index of a text, as a text.
rune_at : ℕ → String → String
rune_at n String.[] = ""
rune_at zero (String.◌∷◌ c s) = one c
rune_at (suc n) (String.◌∷◌ c s) = rune_at n s

-- `strings.ToLower` of a token, whose letters are ASCII.
unfoldable pub lower_token : String → String
unfolding rune_at
lower_token String.[] = ""
lower_token (String.◌∷◌ c s) =
    (if leb 65 (code c) && leb (code c) 90
      then rune_at (code c - 65) "abcdefghijklmnopqrstuvwxyz"
      else one c)
    ⧺ lower_token s

abbrev pub book_words : List String
book_words = "book" ∷ "bk" ∷ "volume" ∷ "vol" ∷ []

abbrev pub chapter_words : List String
chapter_words = "chapter" ∷ "chap" ∷ "ch" ∷ "chaper" ∷ "chaptger" ∷ "chapeter" ∷ []

-- The text of the first pieces, their gaps included.
unfoldable pub text_of : ℕ → List Piece → String
text_of zero pieces = ""
text_of (suc n) [] = ""
text_of (suc n) (p ∷ pieces) = p.gap ⧺ (p.word ⧺ text_of n pieces)

-- `parseNumberTokens(tokens[idx+1:])`
unfoldable pub number_after : List Piece → Option (ℕ × ℕ)
unfolding lower_token parse_number_tokens
number_after rest = parse_number_tokens (map (λ p. lower_token p.word) rest)

-- A word for a book: the number after it, unless there is one already.
unfoldable pub read_book : List Piece → Sequence → Sequence
unfolding number_after
read_book rest info = elim (number_after rest) [
  | some (n, consumed) ↦ if info.book == 0 then record info { book = n } else info
  | none ↦ info
]

-- A number as the chapter, unless there is one already.
unfoldable pub take_chapter : Option ℕ → String → Sequence → Sequence
take_chapter none matched info = info
take_chapter (some n) matched info =
    if info.chapter == 0 then record info { chapter = n; matched_text = matched } else info

-- `else if idx > 0`: the number before a word for a chapter.
unfoldable pub read_before : Option Piece → Piece → Sequence → Sequence
unfolding lower_token parse_simple_number take_chapter
read_before none p info = info
read_before (some q) p info =
    take_chapter (parse_simple_number (lower_token q.word)) (q.word ⧺ (p.gap ⧺ p.word)) info

-- A word for a chapter: the number after it, else the one before it.
unfoldable pub read_chapter : Option Piece → Piece → List Piece → Sequence → Sequence
unfolding number_after read_before text_of
read_chapter previous p rest info = elim (number_after rest) [
  | some (n, consumed) ↦
      if info.chapter == 0
      then record info { chapter = n; matched_text = p.word ⧺ text_of consumed rest }
      else read_before previous p info
  | none ↦ read_before previous p info
]

-- The loop over the tokens; `idx += consumed` does not move Go's range loop.
unfoldable pub read_words : Option Piece → List Piece → Sequence → Sequence
unfolding lower_token read_book read_chapter
read_words previous [] info = info
read_words previous (p ∷ rest) info = read_words (some p) rest (
    if contains book_words (lower_token p.word)
    then read_book rest info
    else if contains chapter_words (lower_token p.word)
    then read_chapter previous p rest info
    else info)

-- `parseWordSequence`
unfoldable pub parse_word_sequence : String → Sequence
unfolding pieces_from read_words
parse_word_sequence text = read_words none (pieces_from "" "" text) no_sequence

title_example :
    parse_word_sequence "Book Two, Chapter Twenty-One: Home"
    ≡ record no_sequence { book = 2; chapter = 21; matched_text = "Chapter Twenty-One" }
unfolding parse_word_sequence contains
title_example = refl

before_example :
    parse_word_sequence "Third chapter"
    ≡ record no_sequence { chapter = 3; matched_text = "Third chapter" }
unfolding parse_word_sequence contains
before_example = refl
