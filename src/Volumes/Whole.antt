-- ===== src/Volumes/Whole.antt =====
-- A group that passes the check is a whole volume.
use serial_sync.Base.{
  ℕ, zero, suc, ◌+◌, ◌-◌, ◌≤◌, ◌<◌, String, Bool, true, false, not, ◌&&◌, ◌||◌, Option, none, some,
  List, [], ◌∷◌, ◌≡◌, ◌≢◌, refl, sym, ap, any, ◌∙◌, ◌⊎◌, inl, inr, ◌≟◌, ◌==◌, leb, if◌then◌else◌,
  All, Bool-cases, &&_true, false≢true, arith, is_empty,
}
use mathlib.Core.Path.{subst}
use serial_sync.Config.Series.{ChapterGap}
use serial_sync.Volumes.Check.{
  Chapter, VolumeGroup, has_number, Checked, check_legacy, check_repeat, check_position, check_type,
  note_chapter, check_chapters, intentional, numbers_from, Ranged, range_number, check_range,
  Verdict, chapters_of, range_of, verdict_of, check_group,
}

-- The chapter is no legacy one outside a rebuild, it has a position, and its file is an EPUB.
abbrev pub is_fine : Bool → Chapter → Bool
is_fine rebuild m =
    not (not rebuild && m.legacy)
    && not (m.sequence.position == 0)
    && m.candidate.artifact.mime_type ≟ "application/epub+zip"

-- The numbers of the chapters, the last one first, before those that are seen already.
abbrev pub seen_from : List ℕ → List Chapter → List ℕ
seen_from seen [] = seen
seen_from seen (m ∷ ms) = seen_from (m.sequence.chapter ∷ seen) ms

-- No number stands twice, and none is seen already.
abbrev pub HasNewNumbers : List ℕ → List Chapter → Type 0
HasNewNumbers seen [] = Unit
HasNewNumbers seen (m ∷ ms) =
    (has_number seen m.sequence.chapter ≡ false) × HasNewNumbers (m.sequence.chapter ∷ seen) ms

module _ (rebuild : Bool) (scope : String → Bool) where
  abbrev step : Chapter → Checked → Checked
  step m st = note_chapter rebuild scope m (
      check_type rebuild scope m (
        check_position rebuild scope m
          (check_repeat rebuild scope m (check_legacy rebuild scope m st))))

  -- What a chapter does to the variables of the loop.
  step-complete :
      (m : Chapter) (st : Checked)
      → (step m st).complete
        ≡ (st.complete && is_fine rebuild m && not (has_number st.seen m.sequence.chapter))
  unfolding note_chapter check_type check_position check_repeat check_legacy
  step-complete m st = ground arith

  step-seen : (m : Chapter) (st : Checked) → (step m st).seen ≡ m.sequence.chapter ∷ st.seen
  unfolding note_chapter check_type check_position check_repeat check_legacy
  step-seen m st = ground arith

  step-excluded :
      (m : Chapter) (st : Checked)
      → (step m st).excluded ≡ (st.excluded || not (scope m.candidate.source.id))
  unfolding note_chapter check_type check_position check_repeat check_legacy
  step-excluded m st = ground arith

  checked_fine :
      (ms : List Chapter) (st : Checked)
      → (check_chapters rebuild scope ms st).complete ≡ true
      → (st.complete ≡ true) × All (λ m. is_fine rebuild m ≡ true) ms × HasNewNumbers st.seen ms
  unfolding check_chapters
  checked_fine [] st h = (h, tt, tt)
  checked_fine (m ∷ ms) st h =
      let (now, fine, new) = checked_fine ms (step m st) h in
      let (complete, here, fresh) = parts _ _ _ (sym (step-complete m st) ∙ now) in
      (complete, (here, fine), (fresh, (rw (step-seen m st) at new)))
    where
      parts : (a b c : Bool) → (a && b && not c) ≡ true → (a ≡ true) × (b ≡ true) × (c ≡ false)
      parts a b c k = ground arith

  checked_seen :
      (ms : List Chapter) (st : Checked)
      → (check_chapters rebuild scope ms st).seen ≡ seen_from st.seen ms
  unfolding check_chapters
  checked_seen [] st = refl
  checked_seen (m ∷ ms) st =
      checked_seen ms (step m st) ∙ ap (λ seen. seen_from seen ms) (step-seen m st)

  checked_scope :
      (ms : List Chapter) (st : Checked)
      → (check_chapters rebuild scope ms st).excluded ≡ false
      → (st.excluded ≡ false) × All (λ m. scope m.candidate.source.id ≡ true) ms
  unfolding check_chapters
  checked_scope [] st h = (h, tt)
  checked_scope (m ∷ ms) st h =
      let (now, rest) = checked_scope ms (step m st) h in
      let (before, here) = parts _ _ (sym (step-excluded m st) ∙ now) in (before, (here, rest))
    where
      parts : (a b : Bool) → (a || not b) ≡ false → (a ≡ false) × (b ≡ true)
      parts a b k = ground arith

-- A gap with a reason is declared for the chapter.
abbrev pub has_gap : List ChapterGap → ℕ → Bool
has_gap gaps n = any (λ g. g.chapter == n && not (is_empty g.reason)) gaps

module _ (first last : ℕ) where
  intentional_declared :
      (gaps : List ChapterGap) (n : ℕ) (found : Option String) (reason : String)
      → intentional first last gaps n found ≡ some reason
      → (found ≡ some reason) ⊎ (has_gap gaps n ≡ true)
  unfolding intentional
  intentional_declared [] n found reason h = inl h
  intentional_declared (g ∷ gaps) n found reason h = ground (
    arith,
    intentional_declared gaps n found reason,
    intentional_declared gaps n (some g.reason) reason,
  )

  -- The chapter is there, or its gap is declared.
  abbrev Covers : List ChapterGap → List ℕ → ℕ → Type 0
  Covers gaps seen n = (has_number seen n ≡ true) ⊎ (has_gap gaps n ≡ true)

  numbered :
      (gaps : List ChapterGap) (seen : List ℕ) (n : ℕ) (st : Ranged) (found : Option String)
      → intentional first last gaps n none ≡ found
      → (range_number n found st).whole ≡ true
      → (st.whole ≡ true) × Covers gaps seen n
  unfolding range_number
  numbered gaps seen n st none e h = absurd (false≢true h)
  numbered gaps seen n st (some reason) e h = elim (intentional_declared gaps n none reason e) [
    | inl k ↦ absurd (cc)
    | inr k ↦ (h, inr k)
  ]

  one_number :
      (gaps : List ChapterGap) (seen : List ℕ) (n : ℕ) (st : Ranged)
      → (if has_number seen n
          then st
          else range_number n (intentional first last gaps n none) st).whole
        ≡ true
      → (st.whole ≡ true) × Covers gaps seen n
  one_number gaps seen n st h = elim (Bool-cases (has_number seen n)) [
    | inl e ↦ ((rw e at h), inl e)
    | inr k ↦ numbered gaps seen n st _ refl (rw k at h)
  ]

  range_covered :
      (gaps : List ChapterGap) (seen ns : List ℕ) (st : Ranged)
      → (check_range first last gaps seen ns st).whole ≡ true
      → (st.whole ≡ true) × All (Covers gaps seen) ns
  unfolding check_range
  range_covered gaps seen [] st h = (h, tt)
  range_covered gaps seen (n ∷ ns) st h =
      let (now, rest) = range_covered gaps seen ns _ h in
      let (before, here) = one_number gaps seen n st now in (before, (here, rest))

equal_numbers : {m n : ℕ} → (m == n) ≡ true → m ≡ n
equal_numbers h = ground arith

other_numbers : {m n : ℕ} → (m == n) ≡ false → m ≢ n
other_numbers h = ground arith

leb_at_most : {m n : ℕ} → leb m n ≡ true → m ≤ n
leb_at_most h = ground arith

numbers_from-All :
    (P : ℕ → Type 0) (first count n : ℕ)
    → All P (numbers_from first count)
    → first ≤ n
    → n < first + count
    → P n
unfolding numbers_from
numbers_from-All P first zero n h a b = absurd (omega (arith, a, b))
numbers_from-All P first (suc count) n (h, hs) a b = elim (Bool-cases (first == n)) [
  | inl e ↦ subst P (equal_numbers e) h
  | inr d ↦
      numbers_from-All P (first + 1) count n hs (omega (arith, a, other_numbers d))
        (omega (arith, b))
]

-- A whole volume: each chapter of the range is there or has a declared gap, no number stands twice,
-- and each chapter is fit for a volume and of a source in the scope.
pub record IsWhole (rebuild : Bool) (scope : String → Bool) (g : VolumeGroup) : Type 0 where
  pub ordered : g.plan.first ≤ g.plan.last
  pub covered :
      (n : ℕ)
      → g.plan.first ≤ n
      → n ≤ g.plan.last
      → (has_number (seen_from [] g.chapters) n ≡ true) ⊎ (has_gap g.gaps n ≡ true)
  pub distinct : HasNewNumbers [] g.chapters
  pub fit : All (λ m. is_fine rebuild m ≡ true) g.chapters
  pub in_scope : All (λ m. scope m.candidate.source.id ≡ true) g.chapters

verdict_parts : (a b c : Bool) → (a && not b && not c) ≡ true → (a ≡ true) × (c ≡ false)
verdict_parts a b c h = ground arith

module _ (rebuild : Bool) (scope : String → Bool) (series_id : String) (has_books : Bool) where
  verdict_of-IsWhole :
      (g : VolumeGroup)
      → (verdict_of rebuild scope series_id has_books g
          (chapters_of rebuild scope series_id has_books g)
          (range_of rebuild scope series_id has_books g
            (chapters_of rebuild scope series_id has_books g).seen
            (chapters_of rebuild scope series_id has_books g).complete)).complete
        ≡ true
      → IsWhole rebuild scope g
  unfolding verdict_of chapters_of range_of
  verdict_of-IsWhole g h =
      let (whole, kept) = verdict_parts _ _ _ h in
      let (complete, covered) = range_covered g.plan.first g.plan.last g.gaps _ _ _ whole in
      let (start, fit, distinct) = checked_fine rebuild scope g.chapters _ complete in
      let (from, ranged) = &&_true _ _ start in
      let ordered : g.plan.first ≤ g.plan.last = leb_at_most from in
      record {
        ordered = ordered;
        covered = λ n a b.
            subst (λ seen. Covers g.plan.first g.plan.last g.gaps seen n)
              (checked_seen rebuild scope g.chapters _)
              (numbers_from-All (Covers g.plan.first g.plan.last g.gaps _) g.plan.first
                (g.plan.last + 1 - g.plan.first) n covered a (omega (arith, ordered, b)));
        distinct = distinct;
        fit = fit;
        in_scope = (checked_scope rebuild scope g.chapters _ kept).1;
      }

  -- A group that the check calls complete is a whole volume: every chapter from its first to its last
  -- is there, or has a gap that is declared with a reason, no chapter number stands twice, and each
  -- chapter has a position, an EPUB file and a source in scope and is no legacy one outside a rebuild.
  pub check_group-IsWhole :
      (g : VolumeGroup) (v : Verdict)
      → check_group rebuild scope series_id has_books g ≡ some v
      → v.complete ≡ true
      → IsWhole rebuild scope g
  unfolding check_group
  check_group-IsWhole g v h k =
      elim (Bool-cases (chapters_of rebuild scope series_id has_books g).selected) [
        | inl e ↦ verdict_of-IsWhole g (completed _ v (rw e at h) k)
        | inr n ↦ absurd (nothing v (rw n at h))
      ]
    where
      completed : (u v : Verdict) → some u ≡ some v → v.complete ≡ true → u.complete ≡ true
      completed u v e c = cc

      nothing : (v : Verdict) → none ≡ some v → ⊥
      nothing v e = cc
