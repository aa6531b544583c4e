-- ===== src/Tests/Names.antt =====
-- Two chapters of a track with the same file name, and one with its own.
use serial_sync.Base.{
  ℕ, some, get_elem?, NoRepeat, has_slash, List, [], ◌∷◌, ◌≡◌, refl, map, contains, to_lower, slice,
  runes, ok,
}
use serial_sync.Base.FilePath.{join}
use serial_sync.Domain.Library.{PublishCandidate}
use serial_sync.Sequence.Detect.{ext}
use serial_sync.Delivery.Names.{name_key, distinguished, first_repeat, resolve_collision_names}
use serial_sync.Delivery.Distinct.{lower_place, IsSettled, resolve_collision_names-NoRepeat}
use serial_sync.Tests.Data.{artifact, chapter, digest}
use serial_sync.Tests.Classify.{go}

abbrev before : List PublishCandidate
before =
    chapter "r1" (artifact "a1" "r1" "one.epub" "s1")
    ∷ chapter "r2" (artifact "a2" "r2" "one.epub" "s2")
    ∷ chapter "r3" (artifact "a3" "r3" "two.epub" "s3")
    ∷ []

abbrev after : List PublishCandidate
after =
    chapter "r1" (artifact "a1" "r1" "one-rpatreon\0src\0r1.epub" "s1")
    ∷ chapter "r2" (artifact "a2" "r2" "one-rpatreon\0src\0r2.epub" "s2")
    ∷ chapter "r3" (artifact "a3" "r3" "two.epub" "s3")
    ∷ []

resolved : resolve_collision_names go digest before ≡ ok after
unfolding resolve_collision_names name_key distinguished contains to_lower slice runes join ext
    first_repeat has_slash
resolved = refl

resolve_collision_names-NoRepeat_example :
    NoRepeat (map (lower_place go) after)
    × ((i : ℕ) (c : PublishCandidate)
        → get_elem? before i ≡ some c
        → IsSettled go digest before after i c)
resolve_collision_names-NoRepeat_example =
    resolve_collision_names-NoRepeat go digest before after resolved
