-- ===== src/Classify/Select.antt =====
-- internal/classify/selectors.go and `matches` of classify.go: whether a rule applies to a release.
use serial_sync.Base.{
  ℕ, String, Bool, true, false, not, ◌&&◌, Option, none, some, List, [], ◌∷◌, ◌++◌, ◌⧺◌, ◌≟◌,
  is_empty, if◌then◌else◌, any, select, leb, itoa, joined, Matchers, Pattern, equal_fold,
}
use serial_sync.Domain.Release.{Attachment, NormalizedRelease}
use serial_sync.Domain.Explanation.{SelectorMatch, GuardResult}
use serial_sync.Config.Rules.{CollectionSelector, Guards, CompiledSelectors, CompiledRule}

abbrev pub no_match : SelectorMatch
no_match = record { id = ""; kind = ""; value = ""; attachment = "" }

-- A compiled expression that is not nil matches the text.
unfoldable pub pattern_matches : Option Pattern → String → Bool
pattern_matches none text = false
pattern_matches (some p) text = p text

unfoldable pub contains_fold : Matchers → List String → String → Bool
unfolding equal_fold
contains_fold go values wanted = any (λ value. equal_fold go value wanted) values

-- A file name match of one expression: one entry for each file, in order.
unfoldable pub file_matches : Option Pattern → String → List Attachment → List SelectorMatch
unfolding pattern_matches
file_matches p value [] = []
file_matches p value (file ∷ files) =
    let rest = file_matches p value files in
    if pattern_matches p file.file_name
    then record no_match {
      kind = "attachment_filename_regex";
      value = value;
      attachment = file.file_name;
    }
      ∷ rest
    else rest

-- `matches`: the single legacy selector of a rule.
unfoldable pub matches : Matchers → CompiledRule → NormalizedRelease → Bool
unfolding contains_fold pattern_matches
matches go compiled release =
    let rule = compiled.rule in
    if rule.match_type ≟ "tag"
    then contains_fold go release.tags rule.match_value
    else if rule.match_type ≟ "collection"
    then contains_fold go release.collections rule.match_value
    else if rule.match_type ≟ "title_regex"
    then pattern_matches compiled.selectors.legacy_title release.title
    else if rule.match_type ≟ "attachment_filename_regex"
    then any (λ a. pattern_matches compiled.selectors.legacy_attachment a.file_name)
        release.attachments
    else if rule.match_type ≟ "fallback"
    then true
    else rule.match_type ≟ "fallback_default"

-- A collection selector applies: by the provider's id where one is given, else by its name.
unfoldable pub collection_matches : Matchers → NormalizedRelease → CollectionSelector → Bool
unfolding contains_fold
collection_matches go release collection =
    if is_empty collection.id
    then contains_fold go release.collections collection.name
    else elim release.enrichment [
      | none ↦ false
      | some e ↦
          any
            (λ ref.
              ref.id ≟ collection.id && ref.provider ≟ release.provider && ref.type ≟ "collection")
            e.collections
    ]

unfoldable pub collection_match_list :
    Matchers → NormalizedRelease → List CollectionSelector → List SelectorMatch
unfolding collection_matches
collection_match_list go release [] = []
collection_match_list go release (c ∷ collections) =
    let rest = collection_match_list go release collections in
    if collection_matches go release c
    then record no_match { kind = "collection"; value = c.name; id = c.id } ∷ rest
    else rest

unfoldable pub tag_match_list : Matchers → NormalizedRelease → List String → List SelectorMatch
unfolding contains_fold
tag_match_list go release [] = []
tag_match_list go release (name ∷ names) =
    let rest = tag_match_list go release names in
    if contains_fold go release.tags name
    then record no_match { kind = "tag"; value = name } ∷ rest
    else rest

-- The expressions stand beside their texts; compilation gives one for each, so both end together.
unfoldable pub title_match_list :
    NormalizedRelease → List (Option Pattern) → List String → List SelectorMatch
unfolding pattern_matches
title_match_list release (p ∷ ps) (text ∷ texts) =
    let rest = title_match_list release ps texts in
    if pattern_matches p release.title
    then record no_match { kind = "title_regex"; value = text } ∷ rest
    else rest
title_match_list release _ _ = []

unfoldable pub attachment_match_list :
    NormalizedRelease → List (Option Pattern) → List String → List SelectorMatch
unfolding file_matches
attachment_match_list release (p ∷ ps) (text ∷ texts) =
    file_matches p text release.attachments ++ attachment_match_list release ps texts
attachment_match_list release _ _ = []

-- `selectMatches`: an override, a legacy selector, or the grouped selectors.
unfoldable pub select_matches : Matchers → CompiledRule → NormalizedRelease → List SelectorMatch
unfolding matches file_matches collection_match_list tag_match_list title_match_list
    attachment_match_list
select_matches go compiled release =
    let rule = compiled.rule in
    let selectors = compiled.selectors in
    if rule.override
    then if rule.release_id ≟ release.provider_release_id
      then record no_match { kind = "release_id"; value = rule.release_id } ∷ []
      else []
    else if rule.match_type ≟ "attachment_filename_regex"
        && elim selectors.legacy_attachment [ none ↦ false | some _ ↦ true ]
    then file_matches selectors.legacy_attachment rule.match_value release.attachments
    else if not (is_empty rule.match_type)
    then if matches go compiled release
      then record no_match { kind = rule.match_type; value = rule.match_value } ∷ []
      else []
    else collection_match_list go release rule.collections
      ++ tag_match_list go release rule.tags
      ++ title_match_list release selectors.title rule.title_patterns
      ++ attachment_match_list release selectors.attachments rule.attachment_patterns

-- The texts of the title guards that the release's title matches.
unfoldable pub matched_titles :
    NormalizedRelease → List (Option Pattern) → List String → List String
unfolding pattern_matches
matched_titles release (p ∷ ps) (text ∷ texts) =
    let rest = matched_titles release ps texts in
    if pattern_matches p release.title then text ∷ rest else rest
matched_titles release _ _ = []

abbrev pub has_none {ℓ} : {A : Type ℓ} → List A → Bool
has_none [] = true
has_none (_ ∷ _) = false

-- `evaluateGuards`; `count` is `textcontent.Count` of the release.
unfoldable pub evaluate_guards :
    Matchers → ℕ → Guards → CompiledSelectors → NormalizedRelease → List GuardResult
unfolding contains_fold matched_titles joined
evaluate_guards go count guards selectors release =
    let found = select (contains_fold go guards.unless_tags) release.tags in
    let titles = matched_titles release selectors.unless_title guards.unless_title_patterns in
    elim guards.min_body_chars [
      | none ↦ []
      | some least ↦
          record {
            field_ = "min_body_chars";
            passed = leb least count;
            detail = itoa count ⧺ (" visible characters; requires " ⧺ itoa least);
          }
          ∷ []
    ]
    ++ (if has_none guards.unless_tags
        then []
        else record { field_ = "unless_tags"; passed = has_none found; detail = joined ", " found }
          ∷ [])
    ++ (if has_none selectors.unless_title
        then []
        else record {
          field_ = "unless_title_patterns";
          passed = has_none titles;
          detail = joined ", " titles;
        }
          ∷ [])
