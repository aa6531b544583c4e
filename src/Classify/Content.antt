-- ===== src/Classify/Content.antt =====
-- internal/classify/classify.go: which content of a release a decision delivers.
use serial_sync.Base.{
  ℕ, ◌+◌, String, Bool, true, false, not, ◌&&◌, ◌||◌, none, some, List, [], ◌∷◌, ◌⧺◌, ◌≟◌, is_empty,
  if◌then◌else◌, any, select, first, length, ltb, get_elem?, trim_space, trim_dot, has_suffix,
  to_lower, Matchers,
}
use serial_sync.Domain.Decision.{
  ContentReference, TrackDecision, text_post, attachment_preferred, attachment_only,
  text_plus_attachments,
}
use serial_sync.Domain.Release.{Attachment, no_attachment, NormalizedRelease}

abbrev pub body_reference : ContentReference
body_reference = record { kind = "body"; file_name = ""; sha256 = ""; attachment_index = 0 }

abbrev pub none_reference : ContentReference
none_reference = record { kind = "none"; file_name = ""; sha256 = ""; attachment_index = 0 }

-- `file.FileName == ref.FileName && (ref.SHA256 == "" || file.SHA256 == "" || equal)`
unfoldable pub is_referenced : ContentReference → Attachment → Bool
is_referenced ref file =
    file.file_name ≟ ref.file_name
    && (is_empty ref.sha256 || is_empty file.sha256 || ref.sha256 ≟ file.sha256)

-- `SelectAttachment` of a decision that already names its content.
unfoldable pub referenced : List Attachment → ContentReference → Attachment × Bool
unfolding is_referenced
referenced files ref =
    if ref.kind ≟ "attachment"
    then elim (get_elem? files ref.attachment_index) [
      | none ↦ (no_attachment, false)
      | some file ↦ (file, is_referenced ref file)
    ]
    else (no_attachment, false)

-- The first candidate with the first preferred ending that one has, else the first candidate.
unfoldable pub preferred : Matchers → List Attachment → List String → Attachment → Attachment
unfolding has_suffix trim_dot to_lower
preferred go candidates [] default = default
preferred go candidates (ending ∷ endings) default =
    let needle = "." ⧺ trim_dot (to_lower go ending) in
    elim (first (λ a. has_suffix (to_lower go a.file_name) needle) candidates) [
      | some a ↦ a
      | none ↦ preferred go candidates endings default
    ]

-- The attachments that a decision's globs admit: all of them without a glob.
unfoldable pub admitted : Matchers → List String → List Attachment → List Attachment
admitted go [] files = files
admitted go (glob ∷ globs) files =
    select (λ a. any (λ pattern. go.glob pattern a.file_name) (glob ∷ globs)) files

-- `SelectAttachment`
unfoldable pub select_attachment : Matchers → List Attachment → TrackDecision → Attachment × Bool
unfolding referenced admitted preferred
select_attachment go files decision = elim decision.selected_content [
  | some ref ↦ referenced files ref
  | none ↦ elim (admitted go decision.attachment_glob files) [
    | [] ↦ (no_attachment, false)
    | c ∷ cs ↦ (preferred go (c ∷ cs) decision.attachment_priority c, true)
  ]
]

-- Go's `==` on two attachments.
unfoldable pub same_attachment : Attachment → Attachment → Bool
same_attachment a b =
    a.provider_media_id ≟ b.provider_media_id
    && a.sha256 ≟ b.sha256
    && a.file_name ≟ b.file_name
    && a.mime_type ≟ b.mime_type
    && a.download_url ≟ b.download_url
    && a.local_path ≟ b.local_path

-- The loop of `attachmentReference`, `i` the index it has reached.
unfoldable pub reference_from : ℕ → List Attachment → Attachment → ContentReference
unfolding same_attachment
reference_from i [] attachment = none_reference
reference_from i (file ∷ files) attachment =
    if same_attachment file attachment
    then record {
      kind = "attachment";
      file_name = file.file_name;
      sha256 = file.sha256;
      attachment_index = i;
    }
    else reference_from (i + 1) files attachment

unfoldable pub attachment_reference : List Attachment → Attachment → ContentReference
unfolding reference_from
attachment_reference files attachment = reference_from 0 files attachment

-- `attachment.LocalPath == "" && attachment.DownloadURL == ""`
unfoldable pub is_unreachable : Attachment → Bool
is_unreachable a = is_empty a.local_path && is_empty a.download_url

-- The branch of `SelectContent` for the two strategies that look for a file.
unfoldable pub attachment_content : Bool → List Attachment → Attachment × Bool → ContentReference
unfolding is_unreachable attachment_reference
attachment_content or_body files (a, true) =
    if or_body && is_unreachable a then body_reference else attachment_reference files a
attachment_content or_body files (a, false) = if or_body then body_reference else none_reference

-- The `switch` of `SelectContent`; `choice` is what `SelectAttachment` answers.
unfoldable pub strategy_content : String → List Attachment → Attachment × Bool → ContentReference
unfolding attachment_content
strategy_content strategy files choice =
    if strategy ≟ text_post || strategy ≟ text_plus_attachments
    then body_reference
    else if strategy ≟ attachment_only
    then attachment_content false files choice
    else if strategy ≟ attachment_preferred
    then attachment_content true files choice
    else none_reference

-- `SelectContent`
unfoldable pub select_content : Matchers → List Attachment → TrackDecision → ContentReference
unfolding select_attachment strategy_content
select_content go files decision = elim decision.selected_content [
  | some ref ↦ ref
  | none ↦ strategy_content decision.content_strategy files (select_attachment go files decision)
]

unfoldable pub release_has_text : NormalizedRelease → Bool
release_has_text release =
    not (is_empty (trim_space release.text_html)) || not (is_empty (trim_space release.text_plain))

-- The answer of `CanMaterialize` for a reference's kind.
unfoldable pub can_materialize : Matchers → NormalizedRelease → TrackDecision → Bool
unfolding select_content select_attachment release_has_text is_unreachable
can_materialize go release decision =
    let kind = (select_content go release.attachments decision).kind in
    let (file, found) = select_attachment go release.attachments decision in
    if kind ≟ "body"
    then release_has_text release
      || (decision.content_strategy ≟ text_plus_attachments && ltb 0 (length release.attachments))
    else if kind ≟ "attachment"
    then found && not (is_unreachable file)
    else false
