-- ===== src/Tests/Sequence.antt =====
-- Resolution and overrides on the small series.
use serial_sync.Base.{◌<◌, true, not, [], ◌∷◌, ◌≡◌, inl, refl, arith, all, sort_by}
use serial_sync.Sequence.Resolve.{
  resolve, has_book, apply_detected, find_series, is_book, resolve_books, resolve_in_book, entered,
  is_extended, start_position, next_position, overlapped, outside_range, place, settle_overlap,
}
use serial_sync.Sequence.Order.{rank, in_order, resolve-increasing}
use serial_sync.Sequence.Range.{IsPlaced, resolve-IsPlaced}
use serial_sync.Sequence.Overrides.{is_for, Carries, apply_detected-override, apply_detected-plain}
use serial_sync.Tests.Data.{series, numbered, override, decision}

-- Chapter 3 of the second book stands behind the ten chapters of the first.
second_book : (resolve series (numbered 2 3) "").position ≡ 13
unfolding resolve has_book entered resolve_books is_book resolve_in_book is_extended start_position
    next_position overlapped outside_range place settle_overlap sort_by
second_book = refl

first_book : (resolve series (numbered 1 7) "").position ≡ 7
unfolding resolve has_book entered resolve_books is_book resolve_in_book is_extended start_position
    next_position overlapped outside_range place settle_overlap sort_by
first_book = refl

has_1 : has_book "" 1 ≡ true
unfolding has_book
has_1 = refl

has_2 : has_book "" 2 ≡ true
unfolding has_book
has_2 = refl

ranks : rank "" 1 (in_order series) < rank "" 2 (in_order series)
unfolding is_book sort_by
ranks = omega arith

resolve-increasing_example :
    (resolve series (numbered 1 7) "").position < (resolve series (numbered 2 3) "").position
resolve-increasing_example =
    resolve-increasing series "" "" (numbered 1 7) (numbered 2 3) has_1 has_2 (inl ranks)
      (λ e. absurd (omega (arith, e, first_book))) (λ e. absurd (omega (arith, e, second_book)))

resolve-IsPlaced_example : IsPlaced series.books (numbered 2 3) (resolve series (numbered 2 3) "")
resolve-IsPlaced_example =
    resolve-IsPlaced series (numbered 2 3) "" has_2 (λ e. absurd (omega (arith, e, second_book)))

only_override : (find_series (series ∷ []) decision.series_id).sequence_overrides ≡ override ∷ []
unfolding find_series
only_override = refl

apply_detected-override_example :
    Carries (apply_detected (series ∷ []) "src" "r9" decision (numbered 1 7)) 4 "" ""
apply_detected-override_example =
    apply_detected-override (series ∷ []) "src" "r9" decision (numbered 1 7) [] [] override
      only_override refl refl (omega arith)

not_for_it :
    all
      (λ p. not (is_for "src" "r1" p))
      (find_series (series ∷ []) decision.series_id).sequence_overrides
    ≡ true
unfolding find_series
not_for_it = refl

apply_detected-plain_example :
    Carries (apply_detected (series ∷ []) "src" "r1" decision (numbered 1 7)) 7 "" ""
apply_detected-plain_example =
    apply_detected-plain (series ∷ []) "src" "r1" decision (numbered 1 7) not_for_it
