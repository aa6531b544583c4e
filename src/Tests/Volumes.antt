-- ===== src/Tests/Volumes.antt =====
-- A volume of three chapters, of which the second was never written.
use serial_sync.Base.{
  if◌then◌else◌, Matchers, Option, List, Bool, inl, inr, arith, has_prefix, sort_by, itoa, ℕ,
  String, true, false, none, some, [], ◌∷◌, ◌≡◌, refl, ◌≟◌,
}
use serial_sync.Domain.Decision.{Sequence}
use serial_sync.Domain.Plans.{VolumePlan}
use serial_sync.Volumes.Check.{Chapter, VolumeGroup, Verdict, check_group}
use serial_sync.Volumes.Whole.{IsWhole, check_group-IsWhole}
use serial_sync.Config.Series.{SeriesConfig, SeriesOutputConfig}
use serial_sync.Domain.Library.{PublishCandidate}
use serial_sync.Volumes.Names.{slug}
use serial_sync.Volumes.Group.{is_grouped, group_candidates}
use serial_sync.Volumes.Slug.{IsSlug, slug-IsSlug}
use serial_sync.Volumes.Ranges.{InRange, range_first-InRange}
use serial_sync.Volumes.Partition.{
  IsPartition, InGroups, no_groups, group_candidates-IsPartition, group_candidates-InGroups,
}
use serial_sync.Tests.Data.{artifact, chapter}

-- No case folding, no pattern.
abbrev plain_matchers : Matchers
plain_matchers = record { fold = λ c. c; lower = λ c. c; glob = λ p n. false; regexp = λ p. none }

abbrev placed : ℕ → Sequence
placed n = record {
  chapter_label = "";
  part = "";
  matched_text = "";
  keep_single = false;
  book = 1;
  book_id = "one";
  chapter = n;
  position = n;
  series_index = "";
  origin = "";
  reason = "";
}

abbrev numbered : ℕ → String → Chapter
numbered n id = record {
  candidate = chapter id (artifact id id "file.epub" "sha");
  sequence = placed n;
  legacy = false;
}

abbrev plan : VolumePlan
plan = record {
  present = [];
  intentional_gaps = [];
  series_id = "story";
  group_id = "book:one";
  first = 1;
  last = 3;
  missing = [];
  status = "open";
  reason = "";
  filename = "story-bk01.epub";
}

abbrev group : VolumeGroup
group = record {
  gaps = record { chapter = 2; reason = "never written" } ∷ [];
  plan = plan;
  chapters = numbered 3 "r3" ∷ numbered 1 "r1" ∷ [];
}

abbrev verdict : Verdict
verdict = record {
  complete = true;
  plan = record plan { present = 1 ∷ 3 ∷ []; intentional_gaps = 2 ∷ [] };
  notes = "Chapter 2: never written" ∷ [];
  failure = none;
}

checked : check_group false (λ id. id ≟ "src") "story" true group ≡ some verdict
unfolding check_group has_prefix sort_by itoa
checked = refl

check_group-IsWhole_example : IsWhole false (λ id. id ≟ "src") group
check_group-IsWhole_example =
    check_group-IsWhole false (λ id. id ≟ "src") "story" true group verdict checked refl

-- Chapters 3 and 12 of a series in volumes of ten.
abbrev output : SeriesOutputConfig
output = record {
  final_chapter = 14;
  intentional_gaps = [];
  format = "epub";
  preface_mode = "";
  bundling = "volume";
  series_index = "";
  chapters_per_volume = 10;
}

abbrev series : SeriesConfig
series = record {
  source = "src";
  sequence_overrides = [];
  id = "story";
  title = "The Story!";
  authors = [];
  output = output;
  books = [];
}

abbrev loose : ℕ → Sequence
loose n = record (placed n) { book_id = "" }

abbrev captured : String → Option (Sequence × Bool)
captured id = some (loose (if id ≟ "r3" then 3 else 12), false)

abbrev candidates : List PublishCandidate
candidates =
    chapter "r3" (artifact "a3" "r3" "three.epub" "sha3")
    ∷ chapter "r12" (artifact "a12" "r12" "twelve.epub" "sha12")
    ∷ []

range_first-InRange_example : InRange 10 14 12
range_first-InRange_example =
    range_first-InRange 10 12 (omega arith) (omega arith) 14 (inr (omega arith))

slug-IsSlug_example : IsSlug (slug plain_matchers "The Story!")
slug-IsSlug_example = slug-IsSlug plain_matchers "The Story!"

group_candidates-IsPartition_example :
    IsPartition plain_matchers series output
      (group_candidates plain_matchers series output captured
        (λ c. false)
        candidates
        (no_groups plain_matchers series output captured (λ c. false))).groups
group_candidates-IsPartition_example =
    group_candidates-IsPartition plain_matchers series output captured (λ c. false) candidates

group_candidates-InGroups_example :
    InGroups
      (record {
        candidate = chapter "r3" (artifact "a3" "r3" "three.epub" "sha3");
        sequence = loose 3;
        legacy = false;
      })
      (group_candidates plain_matchers series output captured
        (λ c. false)
        candidates
        (no_groups plain_matchers series output captured (λ c. false))).groups
unfolding is_grouped
group_candidates-InGroups_example =
    group_candidates-InGroups plain_matchers series output captured (λ c. false)
      (chapter "r3" (artifact "a3" "r3" "three.epub" "sha3")) (loose 3) false candidates (inl refl)
      refl refl refl
