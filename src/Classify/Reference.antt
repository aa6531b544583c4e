-- ===== src/Classify/Reference.antt =====
-- internal/classify/classify.go: the content that `Explain` selects can be found again.
use serial_sync.Base.{
  ℕ, ◌+◌, Bool, true, false, Option, none, some, List, [], ◌∷◌, ◌≡◌, ◌⊎◌, get_elem?, In, Matchers,
}
use serial_sync.Domain.Explanation.{RuleAttempt}
use serial_sync.Domain.Decision.{ContentReference}
use serial_sync.Domain.Release.{Attachment}
use serial_sync.Config.Rules.{RuleConfig}
use serial_sync.Classify.Content.{body_reference, none_reference, referenced, select_attachment}
use serial_sync.Classify.Explain.{ExplainedDecision}
use serial_sync.Classify.Decide.{selected_files}

-- The reference is to no file, or `SelectAttachment` finds a file of the release with `P` by it.
pub data IsFound (files : List Attachment) (P : Attachment → Type 0)
    : ContentReference → Type 0 where
  body : IsFound files P body_reference
  nothing : IsFound files P none_reference
  file :
      (ref : ContentReference) (a : Attachment)
      → get_elem? files ref.attachment_index ≡ some a
      → referenced files ref ≡ (a, true)
      → P a
      → IsFound files P ref

-- What holds of the file that `SelectAttachment` answers, if it finds one.
abbrev IfPicked : (Attachment → Type 0) → Attachment × Bool → Type 0
IfPicked P (a, true) = P a
IfPicked P (a, false) = Unit

-- The files that the selected attempts of a decided rule name, and without any the release's own.
abbrev or_all : List Attachment → List Attachment → List Attachment
or_all files [] = files
or_all files (a ∷ named) = a ∷ named

abbrev pub pool : List Attachment → List RuleAttempt → Option RuleConfig → List Attachment
pool files attempts none = files
pool files attempts (some rule) = or_all files (selected_files files attempts)

-- `SelectAttachment` picks the file among those, before the decision names its content.
abbrev pub IsPicked : Matchers → List Attachment → ExplainedDecision → Attachment → Type 0
IsPicked go files explained a =
    select_attachment go (pool files explained.explanation.attempts explained.rule)
      (record explained.decision { selected_content = none })
    ≡ (a, true)

-- `after` is what stands in `files` from index `i` on.
abbrev IsFrom : List Attachment → ℕ → List Attachment → Type 0
IsFrom files i after = (k : ℕ) → get_elem? files (i + k) ≡ get_elem? after k

-- The reference that `attachmentReference` makes.
abbrev to_file : ℕ → Attachment → ContentReference
to_file i a = record {
  kind = "attachment";
  file_name = a.file_name;
  sha256 = a.sha256;
  attachment_index = i;
}

-- The outcome of a selection that can be found again.
abbrev pub CanSelect : Matchers → List Attachment → ExplainedDecision → ContentReference → Type 0
CanSelect go files explained ref =
    (explained.decision.selected_content ≡ some ref)
    × ((ref.kind ≡ "body")
        ⊎ ((ref.kind ≡ "none")
            ⊎ ((a : Attachment) × In a files
                × IsPicked go files explained a
                × (select_attachment go files explained.decision ≡ (a, true)))))
