-- ===== src/Sequence/Range.antt =====
-- A chapter with a position lies in the declared range of a book of its series.
use serial_sync.Base.{
  ℕ, ◌≤◌, String, true, false, Option, none, some, List, [], ◌∷◌, ◌≡◌, ◌≢◌, ◌⊎◌, inl, inr, refl,
  ltb, arith, Bool-cases, sort_by-All, All-In, All-In_self, In,
}
use serial_sync.Config.Series.{BookConfig, SeriesConfig}
use serial_sync.Domain.Decision.{Sequence}
use serial_sync.Sequence.Resolve.{
  first_of_book, is_extended, start_position, next_position, overlapped, outside_range, place,
  settle_overlap, resolve_in_book, is_book, resolve_books, has_book, entered, resolve,
}
use serial_sync.Sequence.Order.{in_order, resolve-books}

-- The chapter `c` lies in the range that the book declares; a last chapter of 0 is open.
pub record InRange (b : BookConfig) (c : ℕ) : Type 0 where
  pub from : first_of_book b ≤ c
  pub to : (b.last_chapter ≡ 0) ⊎ (c ≤ b.last_chapter)

outside_range-InRange : (b : BookConfig) (c : ℕ) → outside_range b c ≡ false → InRange b c
unfolding outside_range
outside_range-InRange b c h = record { from = ground arith; to = ground arith }

-- What is known of a sequence that was given a position.
pub record IsPlaced (books : List BookConfig) (s r : Sequence) : Type 0 where
  pub book : BookConfig
  pub declared : In book books
  pub named : (r.book_id ≡ book.id) × (r.book ≡ book.number)
  pub in_range : InRange book s.chapter
  pub plain : is_extended s ≡ false
  pub kept : r.keep_single ≡ s.keep_single

place-plain :
    (position : ℕ) (b : BookConfig) (s : Sequence) → place position b s ≢ 0 → is_extended s ≡ false
unfolding place
place-plain position b s h = ground arith

settle_overlap-kept :
    (o : Option BookConfig) (placed : Sequence)
    → (settle_overlap o placed).position ≢ 0
    → ((settle_overlap o placed).book_id ≡ placed.book_id)
      × ((settle_overlap o placed).book ≡ placed.book)
      × ((settle_overlap o placed).keep_single ≡ placed.keep_single)
      × (placed.position ≢ 0)
unfolding settle_overlap
settle_overlap-kept none placed h = ground arith
settle_overlap-kept (some l) placed h = absurd (h refl)

resolve_in_book-IsPlaced :
    (position : ℕ) (b : BookConfig) (later books : List BookConfig) (s : Sequence)
    → In b books
    → s.position ≡ 0
    → (resolve_in_book position b later s).position ≢ 0
    → IsPlaced books s (resolve_in_book position b later s)
unfolding resolve_in_book
resolve_in_book-IsPlaced position b later books s at fresh ne =
    elim (Bool-cases (outside_range b s.chapter)) [
      | inl y ↦ absurd (ground arith)
      | inr n ↦
          let placed : Sequence = record s {
            book_id = b.id;
            book = b.number;
            position = place position b s;
          } in
          let kept =
            settle_overlap-kept (overlapped (place position b s) later) placed (rw n at ne) in
          rw n (record {
            book = b;
            declared = at;
            named = (kept.0, kept.1);
            in_range = outside_range-InRange b s.chapter n;
            plain = place-plain position b s kept.3;
            kept = kept.2;
          })
    ]

resolve_books-IsPlaced :
    (all : List BookConfig) (book_id : String) (s : Sequence) (previous : Option ℕ) (position : ℕ)
    (books : List BookConfig)
    → ((b : BookConfig) → In b books → In b all)
    → s.position ≡ 0
    → (resolve_books book_id s previous position books).position ≢ 0
    → IsPlaced all s (resolve_books book_id s previous position books)
unfolding resolve_books
resolve_books-IsPlaced all book_id s previous position [] within fresh ne = absurd (ne fresh)
resolve_books-IsPlaced all book_id s previous position (b ∷ books) within fresh ne =
    elim (Bool-cases (is_book book_id s.book b)) [
      | inl y ↦ rw y (
          resolve_in_book-IsPlaced (start_position previous position b) b books all s
            (within b (inl refl)) fresh (rw y at ne))
      | inr n ↦ rw n (
          resolve_books-IsPlaced all book_id s (some b.number)
            (next_position (start_position previous position b) b) books (λ c h. within c (inr h))
            fresh (rw n at ne))
    ]

-- A sequence that has a book and is given a position names a book of the series, lies in the range
-- that the book declares, has no part and no chapter label, and is kept single only if it was.
pub resolve-IsPlaced :
    (series : SeriesConfig) (s : Sequence) (book_id : String)
    → has_book book_id s.book ≡ true
    → (resolve series s book_id).position ≢ 0
    → IsPlaced series.books s (resolve series s book_id)
unfolding entered is_extended
resolve-IsPlaced series s book_id h ne =
    let e = resolve-books series s book_id h in
    let sorted =
      sort_by-All (λ a b. ltb a.number b.number) (λ b. In b series.books) series.books
        (All-In_self series.books) in
    let p =
      resolve_books-IsPlaced series.books book_id (record (entered s book_id) { position = 0 }) none
        1 (in_order series) (λ b k. All-In (λ b. In b series.books) b (in_order series) sorted k)
        refl (rw e at ne) in
    rw e (record {
      book = p.book;
      declared = p.declared;
      named = p.named;
      in_range = p.in_range;
      plain = p.plain;
      kept = p.kept;
    })
