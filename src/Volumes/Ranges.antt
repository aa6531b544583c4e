-- ===== src/Volumes/Ranges.antt =====
-- The range of chapters that a chapter's group stands for.
use native.Mathlib.Nat.{div-add-mod', mod-lt}
use serial_sync.Base.{ℕ, ◌+◌, ◌-◌, ◌≤◌, ◌<◌, ◌≡◌, ◌⊎◌, inl, inr, arith}
use serial_sync.Volumes.Group.{range_first, range_last}

-- The chapter lies in its range, which is no longer than a volume.
pub record InRange (per final chapter : ℕ) : Type 0 where
  pub begins : range_first per chapter ≤ chapter
  pub ends : chapter ≤ range_last per final (range_first per chapter)
  pub bounded : range_last per final (range_first per chapter) < range_first per chapter + per

module _ (per chapter : ℕ) (some_length : 1 ≤ per) (numbered : 1 ≤ chapter) where
  begins_before : range_first per chapter ≤ chapter
  unfolding range_first
  begins_before = omega (arith, numbered, div-add-mod' (chapter - 1) per)

  within_length : chapter < range_first per chapter + per
  unfolding range_first
  within_length = omega (
    arith,
    numbered,
    div-add-mod' (chapter - 1) per,
    mod-lt (chapter - 1) {m = per} (omega (arith, some_length)),
  )

  -- With a positive length of volumes, a numbered chapter lies in the range of its group, unless the
  -- final chapter of the series comes before it, and the range is no longer than that length.
  pub range_first-InRange :
      (final : ℕ) → (final ≡ 0) ⊎ (chapter ≤ final) → InRange per final chapter
  unfolding range_last
  range_first-InRange final uncut = record {
    begins = begins_before;
    ends = elim uncut [
      | inl e ↦ ground (arith, e, within_length)
      | inr k ↦ ground (arith, k, within_length)
    ];
    bounded = ground (arith, some_length);
  }
