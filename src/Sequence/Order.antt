-- ===== src/Sequence/Order.antt =====
-- Positions follow the reading order: by book, then by chapter.
use serial_sync.Base.{
  ℕ, suc, ◌+◌, ◌≤◌, ◌<◌, String, true, false, ◌&&◌, Option, none, some, List, [], ◌∷◌, ◌≡◌, ◌≢◌,
  ◌⊎◌, refl, ltb, leb, arith, if◌then◌else◌, sort_by,
}
use serial_sync.Config.Series.{BookConfig, SeriesConfig}
use serial_sync.Domain.Decision.{Sequence}
use serial_sync.Sequence.Resolve.{
  first_of_book, start_position, next_position, declared_start, overlapped, outside_range, place,
  settle_overlap, resolve_in_book, is_book, resolve_books, has_book, entered, resolve,
}

-- The rank of a sequence's book among the books: their number where there is none.
abbrev pub rank : String → ℕ → List BookConfig → ℕ
rank book_id number [] = 0
rank book_id number (b ∷ books) =
    if is_book book_id number b then 0 else suc (rank book_id number books)

settle_overlap-position :
    (o : Option BookConfig) (placed : Sequence)
    → (settle_overlap o placed).position ≢ 0
    → (o ≡ none) × ((settle_overlap o placed).position ≡ placed.position)
unfolding settle_overlap
settle_overlap-position none placed h = ground arith
settle_overlap-position (some l) placed h = absurd (h refl)

place-eq :
    (position : ℕ) (b : BookConfig) (s : Sequence)
    → place position b s ≢ 0
    → (0 < position) × (place position b s + first_of_book b ≡ position + s.chapter)
unfolding place
place-eq position b s h = ground arith

-- The books of a series, in the order of their numbers.
abbrev pub in_order : SeriesConfig → List BookConfig
in_order series = sort_by (λ a b. ltb a.number b.number) series.books

-- What the round in a book tells of a position that it gives.
resolve_in_book-position :
    (position : ℕ) (b : BookConfig) (later : List BookConfig) (s : Sequence)
    → s.position ≡ 0
    → (resolve_in_book position b later s).position ≢ 0
    → (overlapped (resolve_in_book position b later s).position later ≡ none)
      × (outside_range b s.chapter ≡ false)
      × (0 < position)
      × ((resolve_in_book position b later s).position + first_of_book b ≡ position + s.chapter)
unfolding resolve_in_book
resolve_in_book-position position b later s fresh ne = ground (
  arith,
  settle_overlap-position (overlapped (place position b s) later)
      (record s { book_id = b.id; book = b.number; position = place position b s }),
  place-eq position b s,
)

next_position-after :
    (position : ℕ) (b : BookConfig) (chapter q : ℕ)
    → outside_range b chapter ≡ false
    → q + first_of_book b ≡ position + chapter
    → (next_position position b ≡ 0) ⊎ (q < next_position position b)
unfolding next_position outside_range
next_position-after position b chapter q inside e = ground arith

-- A running position that is unknown or beyond `q` stays so.
start_position-after :
    (previous : Option ℕ) (position : ℕ) (b : BookConfig) (q : ℕ)
    → (position ≡ 0) ⊎ (q < position)
    → (ltb 0 (declared_start b) && leb (declared_start b) q) ≡ false
    → (start_position previous position b ≡ 0) ⊎ (q < start_position previous position b)
unfolding start_position declared_start first_of_book
start_position-after previous position b q h d = ground arith

next_position-keeps :
    (position : ℕ) (b : BookConfig) (q : ℕ)
    → (position ≡ 0) ⊎ (q < position)
    → (next_position position b ≡ 0) ⊎ (q < next_position position b)
unfolding next_position
next_position-keeps position b q h = ground arith

outside-le :
    (b : BookConfig) (chapter : ℕ) → outside_range b chapter ≡ false → first_of_book b ≤ chapter
unfolding outside_range
outside-le b chapter h = ground arith

overlapped-tail :
    (q : ℕ) (b : BookConfig) (books : List BookConfig)
    → overlapped q (b ∷ books) ≡ none
    → ((ltb 0 (declared_start b) && leb (declared_start b) q) ≡ false) × (overlapped q books ≡ none)
unfolding overlapped
overlapped-tail q b books h = ground arith

-- A chapter found from a running position beyond `q` lands beyond `q`, if `q` reaches no declared
-- start on the way.
resolve_books-beyond :
    (book_id : String) (t : Sequence) (previous : Option ℕ) (position : ℕ) (books : List BookConfig)
    (q : ℕ)
    → t.position ≡ 0
    → (position ≡ 0) ⊎ (q < position)
    → overlapped q books ≡ none
    → (resolve_books book_id t previous position books).position ≢ 0
    → q < (resolve_books book_id t previous position books).position
unfolding resolve_books
resolve_books-beyond book_id t previous position [] q fresh h o ne = absurd (ne fresh)
resolve_books-beyond book_id t previous position (b ∷ books) q fresh h o ne =
    let start = start_position previous position b in
    let (d, o') = overlapped-tail q b books o in
    let after = start_position-after previous position b q h d in
    ground (
      arith,
      resolve_in_book-position start b books t fresh,
      outside-le b t.chapter,
      resolve_books-beyond book_id t (some b.number) (next_position start b) books q fresh
          (next_position-keeps start b q after) o',
    )

-- Positions are strictly increasing in the rank of the book, and in the chapter inside a book.
resolve_books-increasing :
    (bs bt : String) (s t : Sequence) (previous : Option ℕ) (position : ℕ) (books : List BookConfig)
    → s.position ≡ 0
    → t.position ≡ 0
    → (rank bs s.book books < rank bt t.book books)
      ⊎ ((rank bs s.book books ≡ rank bt t.book books) × (s.chapter < t.chapter))
    → (resolve_books bs s previous position books).position ≢ 0
    → (resolve_books bt t previous position books).position ≢ 0
    → (resolve_books bs s previous position books).position
      < (resolve_books bt t previous position books).position
unfolding resolve_books
resolve_books-increasing bs bt s t previous position [] fs ft lex ns nt = absurd (ns fs)
resolve_books-increasing bs bt s t previous position (b ∷ books) fs ft lex ns nt =
    let start = start_position previous position b in
    let next = next_position start b in
    let q = (resolve_in_book start b books s).position in
    ground (
      arith,
      resolve_in_book-position start b books s fs,
      resolve_in_book-position start b books t ft,
      next_position-after start b s.chapter q,
      resolve_books-beyond bt t (some b.number) next books q ft,
      resolve_books-increasing bs bt s t (some b.number) next books fs ft,
    )

pub resolve-books :
    (series : SeriesConfig) (s : Sequence) (book_id : String)
    → has_book book_id s.book ≡ true
    → resolve series s book_id
      ≡ resolve_books book_id (record (entered s book_id) { position = 0 }) none 1 (in_order series)
unfolding resolve
resolve-books series s book_id h = rw h

-- Of two sequences that have a book and are given a position, the one whose book comes first in the
-- order of the series, or whose chapter comes first in the same book, has the smaller position.
pub resolve-increasing :
    (series : SeriesConfig) (bs bt : String) (s t : Sequence)
    → has_book bs s.book ≡ true
    → has_book bt t.book ≡ true
    → (rank bs s.book (in_order series) < rank bt t.book (in_order series))
      ⊎ ((rank bs s.book (in_order series) ≡ rank bt t.book (in_order series))
          × (s.chapter < t.chapter))
    → (resolve series s bs).position ≢ 0
    → (resolve series t bt).position ≢ 0
    → (resolve series s bs).position < (resolve series t bt).position
unfolding entered
resolve-increasing series bs bt s t hs ht lex =
    rw (resolve-books series s bs hs, resolve-books series t bt ht)
      (resolve_books-increasing bs bt (record (entered s bs) { position = 0 })
        (record (entered t bt) { position = 0 }) none 1 (in_order series) refl refl lex)
