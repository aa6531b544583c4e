-- ===== src/Config/Series.antt =====
-- internal/config/config.go: a series, its books and its overrides.
use serial_sync.Base.{ℕ, String, Bool, List}

pub record ChapterGap : Type 0 where
  pub chapter : ℕ
  pub reason : String

pub record SequenceOverride : Type 0 where
  pub source : String
  pub release_id : String
  pub book_id : String
  pub chapter : ℕ
  pub keep_single : Bool

-- The labels and the metadata of a book, which no ordering reads, are left out.
pub record BookConfig : Type 0 where
  pub intentional_gaps : List ChapterGap
  pub id : String
  pub number : ℕ
  pub title : String
  pub first_chapter : ℕ
  pub last_chapter : ℕ
  pub series_position_start : ℕ

pub record SeriesOutputConfig : Type 0 where
  pub final_chapter : ℕ
  pub intentional_gaps : List ChapterGap
  pub format : String
  pub preface_mode : String
  pub bundling : String
  pub series_index : String
  pub chapters_per_volume : ℕ

-- The inputs, the metadata and the author profiles of a series are left out.
pub record SeriesConfig : Type 0 where
  pub source : String
  pub sequence_overrides : List SequenceOverride
  pub id : String
  pub title : String
  pub authors : List String
  pub output : SeriesOutputConfig
  pub books : List BookConfig
