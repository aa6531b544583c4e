-- ===== src/Domain/Release.antt =====
-- internal/domain/types.go: a release as the provider normalises it, and its attachments.
use serial_sync.Base.{ℕ, String, Option, List}
use serial_sync.Domain.Publication.{ReleaseEnrichment}

pub record Attachment : Type 0 where
  pub provider_media_id : String
  pub sha256 : String
  pub file_name : String
  pub mime_type : String
  pub download_url : String
  pub local_path : String

-- `Attachment{}`
abbrev pub no_attachment : Attachment
no_attachment = record {
  provider_media_id = "";
  sha256 = "";
  file_name = "";
  mime_type = "";
  download_url = "";
  local_path = "";
}

pub record NormalizedRelease : Type 0 where
  pub enrichment : Option ReleaseEnrichment
  pub provider : String
  pub provider_release_id : String
  pub url : String
  pub title : String
  pub published_at : ℕ
  pub edited_at : ℕ
  pub post_type : String
  pub visibility_state : String
  pub text_html : String
  pub text_plain : String
  pub tags : List String
  pub collections : List String
  pub attachments : List Attachment
  pub creator_id : String
  pub creator_name : String
  pub source_type : String
