-- ===== src/Domain/Decision.antt =====
-- internal/domain/{types,sequence}.go: a routing decision and its place in the reading order.
use serial_sync.Base.{ℕ, String, Bool, not, ◌||◌, Option, List, ◌==◌, is_empty}
use serial_sync.Domain.Publication.{PublicationMetadata}

abbrev pub text_post : String
text_post = "text_post"

abbrev pub attachment_preferred : String
attachment_preferred = "attachment_preferred"

abbrev pub attachment_only : String
attachment_only = "attachment_only"

abbrev pub text_plus_attachments : String
text_plus_attachments = "text_plus_attachments"

abbrev pub manual : String
manual = "manual"

pub record Sequence : Type 0 where
  pub chapter_label : String
  pub part : String
  pub matched_text : String
  pub keep_single : Bool
  pub book : ℕ
  pub book_id : String
  pub chapter : ℕ
  pub position : ℕ
  pub series_index : String
  pub origin : String
  pub reason : String

unfoldable pub has_chapter : Sequence → Bool
has_chapter s = not (s.chapter == 0) || not (is_empty s.chapter_label)

-- `domain.ContentReference`; its kind is "body", "attachment" or "none".
pub record ContentReference : Type 0 where
  pub kind : String
  pub file_name : String
  pub sha256 : String
  pub attachment_index : ℕ

pub record TrackDecision : Type 0 where
  pub publication : Option PublicationMetadata
  pub selected_content : Option ContentReference
  pub book_id : String
  pub sequence : Option Sequence
  pub track_key : String
  pub track_name : String
  pub series_id : String
  pub rule_id : String
  pub release_role : String
  pub content_strategy : String
  pub output_format : String
  pub preface_mode : String
  pub canonical_author : String
  pub attachment_glob : List String
  pub attachment_priority : List String
  pub anthology_mode : Bool
  pub matched : Bool
