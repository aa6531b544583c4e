-- ===== src/Delivery/Names.antt =====
-- internal/app/replacement.go, `resolveCollisionNames`: two candidates of a track whose names differ
-- at most in case get names that tell them apart.
use serial_sync.Base.{
  ◌-◌, String, Bool, Option, none, some, List, [], ◌∷◌, ◌⧺◌, ◌≟◌, if◌then◌else◌, map, select,
  length, leb, contains, Result, ok, err, errorf, runes, slice, to_lower, Matchers,
}
use serial_sync.Base.FilePath.{join}
use serial_sync.Domain.Library.{PublishCandidate}
use serial_sync.Sequence.Detect.{ext}

-- The first key that has been seen before.
unfoldable pub first_repeat : List String → List String → Option String
unfolding contains
first_repeat seen [] = none
first_repeat seen (k ∷ keys) =
    let rest = first_repeat (k ∷ seen) keys in if contains seen k then some k else rest

-- The answer, by the key that the last loop finds twice.
unfoldable pub checked : List PublishCandidate → Option String → Result (List PublishCandidate)
checked candidates none = ok candidates
checked candidates (some key) = err (errorf ("unresolved filename collision: " ⧺ key))

module _ (go : Matchers) where
  -- `strings.ToLower(filepath.Join(source, track, file))`
  unfoldable pub name_key : PublishCandidate → String
  unfolding to_lower
  name_key c = to_lower go (join (c.source.id ∷ c.track.track_key ∷ c.artifact.filename ∷ []))

  -- More than one candidate has the candidate's key.
  unfoldable pub is_shared : List PublishCandidate → PublishCandidate → Bool
  unfolding name_key
  is_shared candidates c = leb 2 (length (select (λ d. name_key d ≟ name_key c) candidates))

-- `sha256` is the hexadecimal SHA-256 of a text.
module _ (go : Matchers) (sha256 : String → String) where
  -- The name with eight bytes of the release's hash before its ending.
  unfoldable pub renamed : PublishCandidate → PublishCandidate
  unfolding ext
  renamed c =
      let file = c.artifact.filename in
      let identity =
        c.source.provider ⧺ ("\0" ⧺ (c.source.id ⧺ ("\0" ⧺ c.release.provider_release_id))) in
      record c {
        artifact = record c.artifact {
          filename =
              slice 0 (runes file - runes (ext file)) file
              ⧺ ("-r" ⧺ (slice 0 16 (sha256 identity) ⧺ ext file));
        };
      }

  unfoldable pub distinguished : List PublishCandidate → PublishCandidate → PublishCandidate
  unfolding is_shared renamed
  distinguished candidates c = if is_shared go candidates c then renamed c else c

  -- `resolveCollisionNames`: the candidates as it leaves them, or its error.
  unfoldable pub resolve_collision_names : List PublishCandidate → Result (List PublishCandidate)
  unfolding checked
  resolve_collision_names candidates =
      let out = map (distinguished candidates) candidates in
      checked out (first_repeat [] (map (name_key go) out))
