-- ===== src/Domain/Publication.antt =====
-- internal/domain/publication.go and labels.go.
use serial_sync.Base.{ℕ, String, Bool, Option, List}

pub record MetadataAsset : Type 0 where
  pub path : String
  pub sha256 : String
  pub media_type : String
  pub source_url : String

pub record AuthorProfile : Type 0 where
  pub id : String
  pub name : String
  pub biography : String
  pub url : String
  pub portrait : Option MetadataAsset

pub record CollectionMetadata : Type 0 where
  pub id : String
  pub description : String
  pub cover : Option MetadataAsset

pub record PublicationMetadata : Type 0 where
  pub source_url : String
  pub identity_source : String
  pub description : String
  pub description_override : Bool
  pub language : String
  pub cover : Option MetadataAsset
  pub cover_override : Bool
  pub authors : List AuthorProfile
  pub links : List String

pub record LabelReference : Type 0 where
  pub provider : String
  pub campaign : String
  pub type : String
  pub id : String
  pub names : List String

pub record ReleaseEnrichment : Type 0 where
  pub author : Option AuthorProfile
  pub metadata : List CollectionMetadata
  pub capture_fingerprint : String
  pub normalizer_version : ℕ
  pub collections : List LabelReference
