-- ===== src/Tests/Reorder.antt =====
-- A regrouped volume: the file of one chapter takes the place of the old volume of two, and so goes
-- behind the file of the other chapter, which the caller lists last.
use serial_sync.Base.{
  has_slash, contains, String, true, none, List, [], ◌∷◌, ◌≡◌, refl, ok, sort_strings, sort_by,
}
use serial_sync.Base.FilePath.{join}
use serial_sync.Domain.Library.{
  release_ids, PublishCandidate, PublishRecordBundle, VolumeEdition, VolumeMember,
}
use serial_sync.Publish.Target.{depends_on, add_dependency, Dependencies}
use serial_sync.Publish.Filesystem.{ref}
use serial_sync.Publish.Filesystem.Order.{
  candidate_ids, by_id, edition_members, by_release, covers_release, visit, visit_all, finish,
  depend_candidates, depend_records, depend_members, sort_dependencies, reorder,
}
use serial_sync.Publish.Reorder.Ends.{IsEnded}
use serial_sync.Publish.Reorder.Sorted.{IsReordered, reorder-IsReordered, reorder-IsEnded}
use serial_sync.Tests.Data.{artifact, chapter, delivery}

abbrev pub place : PublishCandidate → String
place c = c.artifact.filename

abbrev member : String → VolumeMember
member id = record { release_id = id; content_hash = ""; position = 0 }

-- The old volume of the chapters "r1" and "r2".
abbrev pub edition : VolumeEdition
edition = record {
  series_index = "";
  publication = none;
  notes = [];
  id = "v";
  series_id = "s";
  source_id = "src";
  track_id = "t1";
  group_id = "g";
  first = 1;
  last = 2;
  recipe_hash = "";
  active = true;
  artifact = artifact "old" "" "one.epub" "sha0";
  members = member "r1" ∷ member "r2" ∷ [];
}

abbrev pub one : PublishCandidate
one = chapter "r1" (artifact "b" "r1" "one.epub" "sha1")

abbrev pub two : PublishCandidate
two = chapter "r2" (artifact "a" "r2" "two.epub" "sha2")

abbrev pub records : List PublishRecordBundle
records = delivery "" (artifact "old" "" "one.epub" "sha0") "one.epub" ∷ []

abbrev pub both : List PublishCandidate
both = one ∷ two ∷ []

abbrev pub needed : Dependencies
needed = ("b", "a" ∷ []) ∷ []

found_needed : depend_candidates "lib" place both (edition ∷ []) records both [] ≡ ok needed
unfolding depend_candidates depend_records depend_members edition_members release_ids by_release
    covers_release add_dependency
found_needed = refl

abbrev out : List PublishCandidate × Dependencies
out = (two ∷ one ∷ [], needed)

reordered : reorder "lib" place both records (edition ∷ []) ≡ ok out
unfolding reorder depend_candidates depend_records depend_members visit visit_all finish
    sort_dependencies sort_strings sort_by edition_members release_ids by_release covers_release
    candidate_ids contains depends_on add_dependency by_id
reordered = refl

-- The same below a root, where the old volume stands.
abbrev pub filed : List PublishRecordBundle
filed = delivery "" (artifact "old" "" "one.epub" "sha0") "/lib/src/story/one.epub" ∷ []

pub reordered_files : reorder "lib" (ref "/lib") both filed (edition ∷ []) ≡ ok out
unfolding reorder depend_candidates depend_records depend_members visit visit_all finish
    sort_dependencies sort_strings sort_by edition_members release_ids by_release covers_release
    candidate_ids contains depends_on add_dependency by_id ref join has_slash
reordered_files = refl

reorder-IsReordered_example : IsReordered both out
reorder-IsReordered_example =
    reorder-IsReordered "lib" place both records (edition ∷ []) out reordered

reorder-IsEnded_example : IsEnded "lib" (reorder "lib" place both records (edition ∷ []))
reorder-IsEnded_example =
    reorder-IsEnded "lib" place both records (edition ∷ []) needed found_needed
