-- ===== src/Domain/Library.antt =====
-- internal/domain/types.go: what the catalog stores of sources, releases, artifacts and deliveries.
use serial_sync.Base.{ℕ, String, Bool, Option, List, [], ◌∷◌}
use serial_sync.Domain.Publication.{PublicationMetadata}

pub record Source : Type 0 where
  pub id : String
  pub provider : String
  pub source_url : String
  pub source_type : String
  pub creator_id : String
  pub creator_name : String
  pub auth_profile_id : String
  pub enabled : Bool
  pub sync_cursor : String
  pub last_synced_at : ℕ

pub record StoryTrack : Type 0 where
  pub id : String
  pub source_id : String
  pub track_key : String
  pub track_name : String
  pub canonical_author : String
  pub series_meta : String
  pub output_policy : String
  pub created_at : ℕ
  pub updated_at : ℕ

pub record Release : Type 0 where
  pub id : String
  pub source_id : String
  pub provider_release_id : String
  pub url : String
  pub title : String
  pub published_at : ℕ
  pub edited_at : ℕ
  pub post_type : String
  pub visibility_state : String
  pub normalized_payload_ref : String
  pub raw_payload_ref : String
  pub content_hash : String
  pub discovered_at : ℕ
  pub status : String

-- `Confidence` is a floating-point number that nothing modelled here reads; it is left out.
pub record ReleaseAssignment : Type 0 where
  pub release_id : String
  pub track_id : String
  pub rule_id : String
  pub release_role : String

pub data ArtifactState : Type 0 where
  planned materialized publishing published failed : ArtifactState

pub record Artifact : Type 0 where
  pub id : String
  pub release_id : String
  pub track_id : String
  pub artifact_kind : String
  pub is_canonical : Bool
  pub filename : String
  pub mime_type : String
  pub sha256 : String
  pub storage_ref : String
  pub built_at : ℕ
  pub state : ArtifactState
  pub metadata_ref : String
  pub normalized_ref : String
  pub raw_ref : String

pub data PublishStatus : Type 0 where
  publishing published failed superseded : PublishStatus

pub record PublishRecord : Type 0 where
  pub filename : String
  pub id : String
  pub artifact_id : String
  pub target_id : String
  pub target_kind : String
  pub target_ref : String
  pub publish_hash : String
  pub published_at : ℕ
  pub status : PublishStatus
  pub message : String

pub record VolumeMember : Type 0 where
  pub release_id : String
  pub content_hash : String
  pub position : ℕ

pub record VolumeEdition : Type 0 where
  pub series_index : String
  pub publication : Option PublicationMetadata
  pub notes : List String
  pub id : String
  pub series_id : String
  pub source_id : String
  pub track_id : String
  pub group_id : String
  pub first : ℕ
  pub last : ℕ
  pub recipe_hash : String
  pub active : Bool
  pub artifact : Artifact
  pub members : List VolumeMember

pub record PublishCandidate : Type 0 where
  pub planned : Bool
  pub source : Source
  pub track : StoryTrack
  pub release : Release
  pub assignment : ReleaseAssignment
  pub artifact : Artifact
  pub volume : Option VolumeEdition

pub record PublishRecordBundle : Type 0 where
  pub record_ : PublishRecord
  pub artifact : Artifact
  pub release : Release
  pub source : Source
  pub track : StoryTrack

-- `Status == PublishStatusPublished`
abbrev pub is_published : PublishStatus → Bool
is_published s = elim s [ PublishStatus.published ↦ Bool.true | _ ↦ Bool.false ]

-- Published or publishing: the record entitles its bytes to the destination.
abbrev pub owns_destination : PublishStatus → Bool
owns_destination s = elim s [
  | PublishStatus.published ↦ Bool.true
  | PublishStatus.publishing ↦ Bool.true
  | _ ↦ Bool.false
]

-- The releases of a volume's members, in their order.
unfoldable pub release_ids : List VolumeMember → List String
release_ids [] = []
release_ids (m ∷ ms) = m.release_id ∷ release_ids ms
