-- ===== src/Sequence/Overrides.antt =====
-- An explicit override decides a chapter's number, and an override of another release decides nothing.
use serial_sync.Base.{
  ℕ, ◌<◌, String, Bool, true, not, ◌&&◌, Option, none, some, List, [], ◌∷◌, ◌++◌, ◌≡◌, refl, ◌∙◌,
  ◌≟◌, arith, all,
}
use serial_sync.Config.Series.{SequenceOverride, BookConfig, SeriesConfig}
use serial_sync.Domain.Decision.{Sequence, TrackDecision}
use serial_sync.Sequence.Resolve.{
  start_position, next_position, overlapped, place, settle_overlap, resolve_in_book, resolve_books,
  entered, resolve, apply_override, apply_overrides, find_series, explained, detected_sequence,
  apply_detected,
}
use serial_sync.Sequence.Order.{in_order}

-- The override speaks of this release.
abbrev pub is_for : String → String → SequenceOverride → Bool
is_for source_id release_id o = o.source ≟ source_id && o.release_id ≟ release_id

-- Resolving leaves the author's numbering alone.
abbrev pub SameNumber : Sequence → Sequence → Type 0
SameNumber r s = (r.chapter ≡ s.chapter) × (r.chapter_label ≡ s.chapter_label) × (r.part ≡ s.part)

settle_overlap-SameNumber :
    (o : Option BookConfig) (s : Sequence) → SameNumber (settle_overlap o s) s
unfolding settle_overlap
settle_overlap-SameNumber none s = ground arith
settle_overlap-SameNumber (some l) s = (refl, refl, refl)

resolve_books-SameNumber :
    (book_id : String) (s : Sequence) (previous : Option ℕ) (position : ℕ) (books : List BookConfig)
    → SameNumber (resolve_books book_id s previous position books) s
unfolding resolve_books resolve_in_book
resolve_books-SameNumber book_id s previous position [] = (refl, refl, refl)
resolve_books-SameNumber book_id s previous position (b ∷ books) =
    let start = start_position previous position b in
    let placed : Sequence = record s {
      book_id = b.id;
      book = b.number;
      position = place start b s;
    } in
    ground (
      arith,
      settle_overlap-SameNumber (overlapped (place start b s) books) placed,
      resolve_books-SameNumber book_id s (some b.number) (next_position start b) books,
    )

resolve-SameNumber :
    (series : SeriesConfig) (s : Sequence) (book_id : String)
    → SameNumber (resolve series s book_id) s
unfolding resolve entered
resolve-SameNumber series s book_id = ground (
  arith,
  resolve_books-SameNumber book_id (record (entered s book_id) { position = 0 }) none 1
      (in_order series),
)

apply_overrides-append :
    (source_id release_id : String) (xs ys : List SequenceOverride) (state : Sequence × String)
    → apply_overrides source_id release_id (xs ++ ys) state
      ≡ apply_overrides source_id release_id ys (apply_overrides source_id release_id xs state)
unfolding apply_overrides
apply_overrides-append source_id release_id [] ys state = refl
apply_overrides-append source_id release_id (o ∷ xs) ys state =
    apply_overrides-append source_id release_id xs ys _

apply_overrides-others :
    (source_id release_id : String) (ys : List SequenceOverride) (state : Sequence × String)
    → all (λ o. not (is_for source_id release_id o)) ys ≡ true
    → apply_overrides source_id release_id ys state ≡ state
unfolding apply_overrides
apply_overrides-others source_id release_id [] state h = refl
apply_overrides-others source_id release_id (o ∷ ys) state h =
    ground (arith, apply_overrides-others source_id release_id ys state)

-- The overrides before the deciding one can only change what the deciding one overwrites.
deciding :
    (source_id release_id : String) (xs ys : List SequenceOverride) (o : SequenceOverride)
    (state : Sequence × String)
    → is_for source_id release_id o ≡ true
    → all (λ p. not (is_for source_id release_id p)) ys ≡ true
    → apply_overrides source_id release_id (xs ++ o ∷ ys) state
      ≡ apply_override (apply_overrides source_id release_id xs state) o
deciding source_id release_id xs ys o state h others =
    apply_overrides-append source_id release_id xs (o ∷ ys) state
    ∙ (unfold apply_overrides in
        rw (apply_overrides-others source_id release_id ys _ others) (ground arith))

explained-SameNumber : (s : Sequence) → SameNumber (explained s) s
unfolding explained
explained-SameNumber s = ground arith

detected-SameNumber :
    (series : SeriesConfig) (source_id release_id book_id : String) (sequence : Sequence)
    → SameNumber
        (detected_sequence series source_id release_id book_id sequence)
        (apply_overrides source_id release_id series.sequence_overrides (sequence, book_id)).0
unfolding detected_sequence
detected-SameNumber series source_id release_id book_id sequence =
    let state =
      apply_overrides source_id release_id series.sequence_overrides (sequence, book_id) in
    ground (
      arith,
      explained-SameNumber (resolve series state.0 state.1),
      resolve-SameNumber series state.0 state.1,
    )

apply_override-number :
    (state : Sequence × String) (o : SequenceOverride)
    → 0 < o.chapter
    → ((apply_override state o).0.chapter ≡ o.chapter)
      × ((apply_override state o).0.chapter_label ≡ "")
      × ((apply_override state o).0.part ≡ "")
unfolding apply_override
apply_override-number (s, book_id) o h = ground arith

-- A decision carries a sequence with this number, label and part.
abbrev pub Carries : TrackDecision → ℕ → String → String → Type 0
Carries d chapter label part =
    (s : Sequence) × (d.sequence ≡ some s)
    × (s.chapter ≡ chapter)
    × (s.chapter_label ≡ label)
    × (s.part ≡ part)

-- The last override of a release, if it sets a chapter, decides the chapter's number and clears its
-- label and its part, whatever was detected and whatever the overrides before it say.
pub apply_detected-override :
    (all_series : List SeriesConfig) (source_id release_id : String) (decision : TrackDecision)
    (sequence : Sequence) (xs ys : List SequenceOverride) (o : SequenceOverride)
    → (find_series all_series decision.series_id).sequence_overrides ≡ xs ++ o ∷ ys
    → is_for source_id release_id o ≡ true
    → all (λ p. not (is_for source_id release_id p)) ys ≡ true
    → 0 < o.chapter
    → Carries (apply_detected all_series source_id release_id decision sequence) o.chapter "" ""
unfolding apply_detected
apply_detected-override all_series source_id release_id decision sequence xs ys o e h others pos =
    let series = find_series all_series decision.series_id in
    let start : Sequence × String = (sequence, decision.book_id) in
    let before = apply_overrides source_id release_id xs start in
    let (number, label, part) =
      detected-SameNumber series source_id release_id decision.book_id sequence in
    let decided : apply_overrides source_id release_id series.sequence_overrides start
        ≡ apply_override before o =
      rw e (deciding source_id release_id xs ys o start h others) in
    let (n, l, p) = apply_override-number before o pos in
    (
      detected_sequence series source_id release_id decision.book_id sequence,
      refl,
      number ∙ (rw decided n),
      label ∙ (rw decided l),
      part ∙ (rw decided p),
    )

-- Without an override of the release, the number, the label and the part are those detected.
pub apply_detected-plain :
    (all_series : List SeriesConfig) (source_id release_id : String) (decision : TrackDecision)
    (sequence : Sequence)
    → all
        (λ p. not (is_for source_id release_id p))
        (find_series all_series decision.series_id).sequence_overrides
      ≡ true
    → Carries
        (apply_detected all_series source_id release_id decision sequence)
        sequence.chapter
        sequence.chapter_label
        sequence.part
unfolding apply_detected
apply_detected-plain all_series source_id release_id decision sequence others =
    let series = find_series all_series decision.series_id in
    let same =
      apply_overrides-others source_id release_id series.sequence_overrides
        (sequence, decision.book_id) others in
    let (number, label, part) =
      detected-SameNumber series source_id release_id decision.book_id sequence in
    (
      detected_sequence series source_id release_id decision.book_id sequence,
      refl,
      number ∙ (rw same),
      label ∙ (rw same),
      part ∙ (rw same),
    )
