-- ===== src/Sequence/Consistent.antt =====
-- internal/sequence/detect.go: what a detected place may claim.
use serial_sync.Base.{
  ℕ, zero, suc, String, true, not, ◌&&◌, ◌||◌, Option, none, some, List, [], ◌∷◌, ◌≡◌, refl, ◌⧺◌,
  ◌==◌, is_empty, if◌then◌else◌, if_cases, contains, arith, Matchers,
}
use serial_sync.Domain.Decision.{Sequence, has_chapter}
use serial_sync.Sequence.Words.{atoi}
use serial_sync.Sequence.Title.{
  no_sequence, Piece, number_after, read_book, take_chapter, read_before, read_chapter, read_words,
  parse_word_sequence, book_words, chapter_words, lower_token, pieces_from,
}
use serial_sync.Sequence.Detect.{
  Expressions, stem, book_number, unsigned_label, parse_found, labelled, identified,
  chapter_identity, parse_alone, parse_chapter_identity, with_part, parse_sequence_info, has_place,
  positive_book, take_book, take_place, take_part, detect_from, detect,
}

-- Words alone give neither a label nor a part.
abbrev IsPlain : Sequence → Type 0
IsPlain s = (s.chapter_label ≡ "") × (s.part ≡ "")

-- There is no number beside a label, and a place that is more than a whole number is kept out of
-- volumes.
abbrev pub IsConsistent : Sequence → Type 0
IsConsistent s =
    ((s.chapter == 0 || is_empty s.chapter_label) ≡ true)
    × ((not (not (is_empty s.chapter_label) || not (is_empty s.part)) || s.keep_single) ≡ true)

read_book-IsPlain : (rest : List Piece) (s : Sequence) → IsPlain s → IsPlain (read_book rest s)
unfolding read_book
read_book-IsPlain rest s h =
    elim (number_after rest)
      as (λ n. IsPlain (elim n [
        | some (n, consumed) ↦ if s.book == 0 then record s { book = n } else s
        | none ↦ s
      ])) [ some (n, c) ↦ if_cases IsPlain (s.book == 0) _ _ (λ _. h) (λ _. h) | none ↦ h ]

take_chapter-IsPlain :
    (n : Option ℕ) (matched : String) (s : Sequence)
    → IsPlain s
    → IsPlain (take_chapter n matched s)
unfolding take_chapter
take_chapter-IsPlain none matched s h = h
take_chapter-IsPlain (some n) matched s h = if_cases IsPlain (s.chapter == 0) _ _ (λ _. h) (λ _. h)

read_before-IsPlain :
    (q : Option Piece) (p : Piece) (s : Sequence) → IsPlain s → IsPlain (read_before q p s)
unfolding read_before
read_before-IsPlain none p s h = h
read_before-IsPlain (some q) p s h = take_chapter-IsPlain _ _ s h

read_chapter-IsPlain :
    (q : Option Piece) (p : Piece) (rest : List Piece) (s : Sequence)
    → IsPlain s
    → IsPlain (read_chapter q p rest s)
unfolding read_chapter
read_chapter-IsPlain q p rest s h = ground (arith, read_before-IsPlain q p s h)

read_words-IsPlain :
    (q : Option Piece) (pieces : List Piece) (s : Sequence)
    → IsPlain s
    → IsPlain (read_words q pieces s)
unfolding read_words
read_words-IsPlain q [] s h = h
read_words-IsPlain q (p ∷ rest) s h = read_words-IsPlain (some p) rest _ (
    if_cases IsPlain (contains book_words (lower_token p.word)) _ _
      (λ _. read_book-IsPlain rest s h)
      (λ _.
        if_cases IsPlain (contains chapter_words (lower_token p.word)) _ _
          (λ _. read_chapter-IsPlain q p rest s h) (λ _. h)))

parse_word_sequence-IsPlain : (text : String) → IsPlain (parse_word_sequence text)
unfolding parse_word_sequence
parse_word_sequence-IsPlain text =
    read_words-IsPlain none (pieces_from "" "" text) no_sequence (refl, refl)

IsPlain-IsConsistent : (s : Sequence) → IsPlain s → IsConsistent s
IsPlain-IsConsistent s (a, b) = rw (a, b) (ground arith, refl)

labelled-IsConsistent :
    (s : Sequence) (label matched : String) → IsConsistent (labelled s label matched)
unfolding labelled
labelled-IsConsistent s label matched = (refl, ground arith)

identified-IsConsistent :
    (n : Option ℕ) (s : Sequence) (label matched : String)
    → IsPlain s
    → IsConsistent (identified n s label matched)
unfolding identified
identified-IsConsistent none s label matched h = labelled-IsConsistent s label matched
identified-IsConsistent (some zero) s label matched h = labelled-IsConsistent s label matched
identified-IsConsistent (some (suc n)) s label matched h =
    IsPlain-IsConsistent (record s { matched_text = matched; chapter = suc n }) h

chapter_identity-IsConsistent :
    (s : Sequence) (label matched : String)
    → IsPlain s
    → IsConsistent (chapter_identity s label matched)
unfolding chapter_identity
chapter_identity-IsConsistent s label matched h =
    identified-IsConsistent (atoi label) s label matched h

parse_alone-IsConsistent :
    (bare trailing : Option (String × String)) (s : Sequence)
    → IsPlain s
    → IsConsistent (parse_alone bare trailing s)
unfolding parse_alone
parse_alone-IsConsistent (some (l, m)) trailing s h = chapter_identity-IsConsistent s l _ h
parse_alone-IsConsistent none (some (l, m)) s h = chapter_identity-IsConsistent s l _ h
parse_alone-IsConsistent none none s h = IsPlain-IsConsistent s h

with_part-IsConsistent :
    (part : Option (ℕ × ℕ × String)) (text : String) (s : Sequence)
    → IsConsistent s
    → IsConsistent (with_part part text s)
unfolding with_part
with_part-IsConsistent none text s h = h
with_part-IsConsistent (some (a, b, part)) text s (h, _) = (h, ground arith)

take_book-IsConsistent : (parsed s : Sequence) → IsConsistent s → IsConsistent (take_book parsed s)
unfolding take_book
take_book-IsConsistent parsed s h =
    if_cases IsConsistent (s.book == 0 && positive_book parsed) _ _ (λ _. h) (λ _. h)

take_place-IsConsistent :
    (parsed s : Sequence)
    → IsConsistent parsed
    → IsConsistent s
    → IsConsistent (take_place parsed s)
unfolding take_place
take_place-IsConsistent parsed s p h =
    if_cases IsConsistent (not (has_place s) && has_place parsed) _ _
      (λ _. if_cases IsConsistent (positive_book s) _ _ (λ _. p) (λ _. p)) (λ _. h)

take_part-IsConsistent : (parsed s : Sequence) → IsConsistent s → IsConsistent (take_part parsed s)
unfolding take_part
take_part-IsConsistent parsed s h =
    if_cases IsConsistent (is_empty s.part && not (is_empty parsed.part)) _ _
      (λ _. (h.0, ground arith)) (λ _. h)

module _ (go : Matchers) (re : Expressions) where
  parse_found-IsConsistent :
      (text : String) (compact : Option (String × String × String))
      (explicit : Option (String × String)) (s : Sequence)
      → IsPlain s
      → IsConsistent (parse_found go re text compact explicit s)
  unfolding parse_found
  parse_found-IsConsistent text (some (book, label, m)) explicit s h =
      chapter_identity-IsConsistent (record s { book = book_number book }) label m h
  parse_found-IsConsistent text none (some (words, label)) s h =
      chapter_identity-IsConsistent s (unsigned_label words label) (words ⧺ label) h
  parse_found-IsConsistent text none none s h =
      if_cases IsConsistent (has_chapter s) _ _ (λ _. IsPlain-IsConsistent s h)
        (λ _. parse_alone-IsConsistent (re.bare text) (re.trailing text) s h)

  parse_sequence_info-IsConsistent : (text : String) → IsConsistent (parse_sequence_info go re text)
  unfolding parse_sequence_info parse_chapter_identity
  parse_sequence_info-IsConsistent text =
      let base : String = stem go text in
      let words : Sequence = parse_word_sequence base in
      with_part-IsConsistent (re.part base) base (parse_chapter_identity go re base) (
        parse_found-IsConsistent base (re.compact base) (re.explicit base) words
          (parse_word_sequence-IsPlain base))

  detect_from-IsConsistent :
      (texts : List String) (s : Sequence)
      → IsConsistent s
      → IsConsistent (detect_from go re texts s)
  unfolding detect_from
  detect_from-IsConsistent [] s h = h
  detect_from-IsConsistent (text ∷ texts) s h =
      let parsed : Sequence = parse_sequence_info go re text in
      detect_from-IsConsistent texts _ (
        take_part-IsConsistent parsed (take_place parsed (take_book parsed s)) (
          take_place-IsConsistent parsed (take_book parsed s)
            (parse_sequence_info-IsConsistent text) (take_book-IsConsistent parsed s h)))

  -- A place that is detected never has both a chapter's number and a chapter's label, and one with a
  -- label or a part is marked to stay a file of its own.
  pub detect-IsConsistent : (texts : List String) → IsConsistent (detect go re texts)
  unfolding detect
  detect-IsConsistent texts = detect_from-IsConsistent texts no_sequence (refl, refl)
