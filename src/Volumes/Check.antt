-- ===== src/Volumes/Check.antt =====
-- `planSeriesVolumes`, internal/app/volumes.go: the check of one group's chapters against the range of
-- its volume. The group is as the loop before has collected it.
use serial_sync.Base.{
  ℕ, zero, suc, ◌+◌, ◌-◌, String, Bool, false, not, ◌&&◌, ◌||◌, Option, none, some, List, [], ◌∷◌,
  ◌++◌, ◌⧺◌, ◌≟◌, ◌==◌, is_empty, leb, ltb, if◌then◌else◌, itoa, has_prefix, sort_by, Error, errorf,
}
use serial_sync.Domain.Decision.{Sequence}
use serial_sync.Domain.Library.{PublishCandidate}
use serial_sync.Domain.Plans.{VolumePlan}
use serial_sync.Config.Series.{ChapterGap}

-- A chapter of a group: the candidate, its sequence and its entry in `volumeChapterFacts`.
pub record Chapter : Type 0 where
  pub candidate : PublishCandidate
  pub sequence : Sequence
  pub legacy : Bool

-- `volumeGroup`; the title, which nothing here reads, is left out.
pub record VolumeGroup : Type 0 where
  pub gaps : List ChapterGap
  pub plan : VolumePlan
  pub chapters : List Chapter

-- `m[n]` on a map that is only tested for keys.
unfoldable pub has_number : List ℕ → ℕ → Bool
has_number [] n = false
has_number (k ∷ ks) n = k == n || has_number ks n

-- The variables of the loop over the chapters.
pub record Checked : Type 0 where
  pub complete : Bool
  pub status : String
  pub reason : String
  pub seen : List ℕ
  pub present : List ℕ
  pub selected : Bool
  pub excluded : Bool

-- `rebuild`, and the sources that the request's scope holds.
module _ (rebuild : Bool) (scope : String → Bool) where
  unfoldable pub check_legacy : Chapter → Checked → Checked
  check_legacy m st =
      if not rebuild && m.legacy
      then record st {
        complete = false;
        status = "pending_rebuild";
        reason = "legacy chapters require an explicit migration rebuild";
      }
      else st

  unfoldable pub check_repeat : Chapter → Checked → Checked
  unfolding has_number
  check_repeat m st =
      if has_number st.seen m.sequence.chapter
      then record st {
        complete = false;
        reason = "duplicate chapter numbers need an explicit selection";
      }
      else st

  unfoldable pub check_position : Chapter → Checked → Checked
  check_position m st =
      if m.sequence.position == 0
      then record st { complete = false; reason = m.sequence.reason }
      else st

  unfoldable pub check_type : Chapter → Checked → Checked
  check_type m st =
      if not (m.candidate.artifact.mime_type ≟ "application/epub+zip")
      then record st { complete = false; reason = "chapter does not have an EPUB artifact" }
      else st

  unfoldable pub note_chapter : Chapter → Checked → Checked
  note_chapter m st = record st {
    seen = m.sequence.chapter ∷ st.seen;
    present = st.present ++ m.sequence.chapter ∷ [];
    selected = st.selected || scope m.candidate.source.id;
    excluded = st.excluded || not (scope m.candidate.source.id);
  }

  unfoldable pub check_chapters : List Chapter → Checked → Checked
  unfolding check_legacy check_repeat check_position check_type note_chapter
  check_chapters [] st = st
  check_chapters (m ∷ ms) st =
      check_chapters ms
        (note_chapter m (check_type m (check_position m (check_repeat m (check_legacy m st)))))

-- `intentional[n]`: the last gap for the chapter inside the range that has a reason.
unfoldable pub intentional : ℕ → ℕ → List ChapterGap → ℕ → Option String → Option String
intentional first last [] n found = found
intentional first last (g ∷ gaps) n found = intentional first last gaps n (
    if leb first g.chapter && leb g.chapter last && not (is_empty g.reason) && g.chapter == n
    then some g.reason
    else found)

-- The numbers from `n` on.
unfoldable pub numbers_from : ℕ → ℕ → List ℕ
numbers_from n zero = []
numbers_from n (suc count) = n ∷ numbers_from (n + 1) count

-- The variables of the loop over the range.
pub record Ranged : Type 0 where
  pub whole : Bool
  pub intentional_gaps : List ℕ
  pub missing : List ℕ
  pub notes : List String

unfoldable pub range_number : ℕ → Option String → Ranged → Ranged
range_number n none st = record st { whole = false; missing = st.missing ++ n ∷ [] }
range_number n (some reason) st = record st {
  intentional_gaps = st.intentional_gaps ++ n ∷ [];
  notes = st.notes ++ ("Chapter " ⧺ (itoa n ⧺ (": " ⧺ reason))) ∷ [];
}

unfoldable pub check_range : ℕ → ℕ → List ChapterGap → List ℕ → List ℕ → Ranged → Ranged
unfolding intentional range_number has_number
check_range first last gaps seen [] st = st
check_range first last gaps seen (n ∷ ns) st =
    check_range first last gaps seen ns
      (if has_number seen n then st else range_number n (intentional first last gaps n none) st)

-- What the check makes of a group: whether it is complete, its plan, the notes of its gaps, and the
-- failure of a volume that needs sources outside the scope. `none` is a group with no chapter in scope.
pub record Verdict : Type 0 where
  pub complete : Bool
  pub plan : VolumePlan
  pub notes : List String
  pub failure : Option Error

module _ (rebuild : Bool) (scope : String → Bool) (series_id : String) (has_books : Bool) where
  -- The chapters of the group, from the state at the start of the loop.
  unfoldable pub chapters_of : VolumeGroup → Checked
  unfolding check_chapters
  chapters_of g = check_chapters rebuild scope g.chapters (record {
    complete = leb g.plan.first g.plan.last && is_empty g.plan.reason;
    status = g.plan.status;
    reason = g.plan.reason;
    seen = [];
    present = g.plan.present;
    selected = false;
    excluded = false;
  })

  unfoldable pub range_of : VolumeGroup → List ℕ → Bool → Ranged
  unfolding check_range numbers_from
  range_of g seen complete =
      check_range g.plan.first g.plan.last g.gaps seen
        (numbers_from g.plan.first (g.plan.last + 1 - g.plan.first))
        (record {
          whole = complete;
          intentional_gaps = g.plan.intentional_gaps;
          missing = g.plan.missing;
          notes = [];
        })

  -- A range of chapters in a series that has books.
  unfoldable pub is_unassigned : VolumeGroup → Bool
  is_unassigned g = has_books && has_prefix g.plan.group_id "range:"

  unfoldable pub reason_of : VolumeGroup → Checked → Ranged → String
  unfolding is_unassigned
  reason_of g c r = if c.excluded then "volume needs excluded sources" else elim r.missing [
    | n ∷ ns ↦ "missing expected chapters"
    | [] ↦ if is_unassigned g then "unassigned chapters need a book mapping" else c.reason
  ]

  unfoldable pub verdict_of : VolumeGroup → Checked → Ranged → Verdict
  unfolding is_unassigned reason_of
  verdict_of g c r = record {
    complete = r.whole && not (is_unassigned g) && not c.excluded;
    plan = record (g.plan) {
      status = c.status;
      reason = reason_of g c r;
      present = sort_by ltb c.present;
      intentional_gaps = r.intentional_gaps;
      missing = r.missing;
    };
    notes = r.notes;
    failure =
        if c.excluded
        then some (errorf ("series " ⧺ (series_id ⧺ ": volume needs excluded sources")))
        else none;
  }

  unfoldable pub check_group : VolumeGroup → Option Verdict
  unfolding chapters_of range_of verdict_of
  check_group g =
      let c = chapters_of g in
      if not c.selected then none else some (verdict_of g c (range_of g c.seen c.complete))
