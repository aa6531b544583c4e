-- ===== src/Tests/Data.antt =====
-- A small library: one source, one series, a chapter that is renamed.
use serial_sync.Base.{ℕ, String, true, false, none, List, [], ◌∷◌, ◌≟◌, if◌then◌else◌}
use serial_sync.Domain.Decision.{Sequence, TrackDecision}
use serial_sync.Domain.Library.{
  Source, StoryTrack, Release, Artifact, ArtifactState, PublishStatus, PublishCandidate,
  PublishRecordBundle,
}
use serial_sync.Config.Series.{BookConfig, SeriesConfig, SequenceOverride}
use serial_sync.Sequence.Resolve.{no_series}
use serial_sync.Publish.Target.{Disk, absent, regular}
use serial_sync.Delivery.Plan.{Snapshot}

abbrev pub source : Source
source = record {
  id = "src";
  provider = "patreon";
  source_url = "";
  source_type = "";
  creator_id = "";
  creator_name = "";
  auth_profile_id = "";
  enabled = true;
  sync_cursor = "";
  last_synced_at = 0;
}

abbrev pub track : StoryTrack
track = record {
  id = "t1";
  source_id = "src";
  track_key = "story";
  track_name = "Story";
  canonical_author = "";
  series_meta = "";
  output_policy = "";
  created_at = 0;
  updated_at = 0;
}

abbrev pub release : String → Release
release id = record {
  id = id;
  source_id = "src";
  provider_release_id = id;
  url = "";
  title = "";
  published_at = 0;
  edited_at = 0;
  post_type = "";
  visibility_state = "";
  normalized_payload_ref = "";
  raw_payload_ref = "";
  content_hash = "";
  discovered_at = 0;
  status = "";
}

-- An artifact: its id, release, file name and hash.
abbrev pub artifact : String → String → String → String → Artifact
artifact id release_id filename sha = record {
  id = id;
  release_id = release_id;
  track_id = "t1";
  artifact_kind = "epub";
  is_canonical = true;
  filename = filename;
  mime_type = "application/epub+zip";
  sha256 = sha;
  storage_ref = "";
  built_at = 0;
  state = ArtifactState.materialized;
  metadata_ref = "";
  normalized_ref = "";
  raw_ref = "";
}

abbrev pub chapter : String → Artifact → PublishCandidate
chapter id a = record {
  planned = false;
  source = source;
  track = track;
  release = release id;
  assignment = record { release_id = id; track_id = "t1"; rule_id = ""; release_role = "chapter" };
  artifact = a;
  volume = none;
}

-- A published delivery of an artifact to a destination.
abbrev pub delivery : String → Artifact → String → PublishRecordBundle
delivery release_id a target_ref = record {
  record_ = record {
    filename = a.filename;
    id = "pub_1";
    artifact_id = a.id;
    target_id = "lib";
    target_kind = "filesystem";
    target_ref = target_ref;
    publish_hash = "";
    published_at = 0;
    status = PublishStatus.published;
    message = "";
  };
  artifact = a;
  release = release release_id;
  source = source;
  track = track;
}

-- The first release was delivered as `old.epub`, and its artifact is now `new.epub`.
abbrev pub old_artifact : Artifact
old_artifact = artifact "a1" "r1" "old.epub" "sha1"

abbrev pub new_artifact : Artifact
new_artifact = artifact "a2" "r1" "new.epub" "sha2"

abbrev pub snapshot : Snapshot
snapshot = record {
  records = delivery "r1" old_artifact "/lib/src/story/old.epub" ∷ [];
  volumes = [];
}

abbrev pub candidates : List PublishCandidate
candidates = chapter "r1" new_artifact ∷ []

-- A disk with one file.
abbrev pub one_file : String → String → Disk
one_file path sha = λ p. if p ≟ path then regular sha else absent

abbrev pub digest : String → String
digest s = s

abbrev pub book : String → ℕ → ℕ → BookConfig
book id number last = record {
  intentional_gaps = [];
  id = id;
  number = number;
  title = "";
  first_chapter = 0;
  last_chapter = last;
  series_position_start = 0;
}

-- Two books, the first of ten chapters, and an override of one release.
abbrev pub override : SequenceOverride
override = record {
  source = "src";
  release_id = "r9";
  book_id = "";
  chapter = 4;
  keep_single = false;
}

abbrev pub series : SeriesConfig
series = record no_series {
  id = "story";
  sequence_overrides = override ∷ [];
  books = book "b2" 2 0 ∷ book "b1" 1 10 ∷ [];
}

abbrev pub numbered : ℕ → ℕ → Sequence
numbered number n = record {
  chapter_label = "";
  part = "";
  matched_text = "";
  keep_single = false;
  book = number;
  book_id = "";
  chapter = n;
  position = 0;
  series_index = "";
  origin = "title";
  reason = "";
}

abbrev pub decision : TrackDecision
decision = record {
  publication = none;
  selected_content = none;
  book_id = "";
  sequence = none;
  track_key = "story";
  track_name = "";
  series_id = "story";
  rule_id = "";
  release_role = "chapter";
  content_strategy = "text_post";
  output_format = "epub";
  preface_mode = "none";
  canonical_author = "";
  attachment_glob = [];
  attachment_priority = [];
  anthology_mode = false;
  matched = true;
}
