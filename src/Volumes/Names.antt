-- ===== src/Volumes/Names.antt =====
-- The file names of volumes: `VolumeFilename` and `BookVolumeFilename` of internal/artifact/volume.go,
-- and `slug` of internal/artifact/materialize.go.
use Prim.Native.Char.{code}
use serial_sync.Base.{
  ℕ, String, Bool, false, not, ◌&&◌, ◌||◌, ◌⧺◌, ◌==◌, is_empty, leb, ltb, if◌then◌else◌, itoa,
  trim_space, to_lower, Matchers,
}

-- A letter from a to z, or a digit.
unfoldable pub is_plain : ℕ → Bool
is_plain c = (leb 97 c && leb c 122) || (leb 48 c && leb c 57)

-- The loop over the runes: each run of others is one dash. `last_dash` says that the text so far ends
-- in one.
unfoldable pub squeeze : String → Bool → String
unfolding is_plain
squeeze String.[] last_dash = ""
squeeze (String.◌∷◌ c s) last_dash =
    let rest = squeeze s (not (is_plain (code c))) in
    if is_plain (code c) then String.◌∷◌ c rest else if last_dash then rest else String.◌∷◌ "-" rest

-- `strings.Trim(s, "-")`, from the left and from the right.
unfoldable pub trim_left_dashes : String → String
trim_left_dashes String.[] = ""
trim_left_dashes (String.◌∷◌ c s) =
    let rest = trim_left_dashes s in if code c == 45 then rest else String.◌∷◌ c s

unfoldable pub trim_right_dashes : String → String
trim_right_dashes String.[] = ""
trim_right_dashes (String.◌∷◌ c s) =
    let rest = trim_right_dashes s in
    if is_empty rest && code c == 45 then "" else String.◌∷◌ c rest

unfoldable pub slug : Matchers → String → String
unfolding trim_space to_lower squeeze trim_left_dashes trim_right_dashes
slug go input =
    let result =
      trim_right_dashes (trim_left_dashes (squeeze (to_lower go (trim_space input)) false)) in
    if is_empty result then "release" else result

-- `%02d`
unfoldable pub two_digits : ℕ → String
unfolding itoa
two_digits n = if ltb n 10 then "0" ⧺ itoa n else itoa n

unfoldable pub volume_filename : Matchers → String → ℕ → String
unfolding slug two_digits
volume_filename go title number = slug go title ⧺ ("-vol" ⧺ (two_digits number ⧺ ".epub"))

unfoldable pub book_volume_filename : Matchers → String → ℕ → String
unfolding slug two_digits
book_volume_filename go title number = slug go title ⧺ ("-bk" ⧺ (two_digits number ⧺ ".epub"))
