-- ===== src/Volumes/Slug.antt =====
-- The names that `slug` makes, internal/artifact/materialize.go.
use Prim.Native.Char.{Char, code}
use serial_sync.Base.{
  String, Bool, true, false, not, ◌&&◌, ◌||◌, ◌≡◌, refl, ◌==◌, is_empty, if◌then◌else◌, &&_true,
  if_cases, trim_space, to_lower, Matchers,
}
use serial_sync.Volumes.Names.{is_plain, squeeze, trim_left_dashes, trim_right_dashes, slug}

-- A text of letters from a to z, digits and dashes.
abbrev pub is_clean : String → Bool
is_clean String.[] = true
is_clean (String.◌∷◌ c s) = (is_plain (code c) || code c == 45) && is_clean s

dash_clean : (s : String) → is_clean s ≡ true → is_clean (String.◌∷◌ "-" s) ≡ true
unfolding is_plain
dash_clean s h = h

plain_clean :
    (c : Char) (s : String)
    → is_plain (code c) ≡ true
    → is_clean s ≡ true
    → is_clean (String.◌∷◌ c s) ≡ true
plain_clean c s e h = rw e h

squeeze_clean : (s : String) (last_dash : Bool) → is_clean (squeeze s last_dash) ≡ true
unfolding squeeze
squeeze_clean String.[] d = refl
squeeze_clean (String.◌∷◌ c s) d =
    let rest = squeeze s (not (is_plain (code c))) in
    let clean = squeeze_clean s (not (is_plain (code c))) in
    if_cases (λ x. is_clean x ≡ true) (is_plain (code c)) (String.◌∷◌ c rest)
      (if d then rest else String.◌∷◌ "-" rest) (λ e. plain_clean c rest e clean)
      (λ n.
        if_cases (λ x. is_clean x ≡ true) d rest (String.◌∷◌ "-" rest) (λ _. clean)
          (λ _. dash_clean rest clean))

trim_left_clean : (s : String) → is_clean s ≡ true → is_clean (trim_left_dashes s) ≡ true
unfolding trim_left_dashes
trim_left_clean String.[] h = h
trim_left_clean (String.◌∷◌ c s) h =
    if_cases (λ x. is_clean x ≡ true) (code c == 45) (trim_left_dashes s) (String.◌∷◌ c s)
      (λ _. trim_left_clean s (&&_true _ _ h).1) (λ _. h)

trim_right_clean : (s : String) → is_clean s ≡ true → is_clean (trim_right_dashes s) ≡ true
unfolding trim_right_dashes
trim_right_clean String.[] h = h
trim_right_clean (String.◌∷◌ c s) h =
    let (here, rest) = &&_true (is_plain (code c) || code c == 45) (is_clean s) h in
    if_cases (λ x. is_clean x ≡ true) (is_empty (trim_right_dashes s) && code c == 45) ""
      (String.◌∷◌ c (trim_right_dashes s)) (λ _. refl) (λ _. rw here (trim_right_clean s rest))

-- The text begins with a dash.
abbrev pub has_dash_first : String → Bool
has_dash_first String.[] = false
has_dash_first (String.◌∷◌ c s) = code c == 45

trim_left_first : (s : String) → has_dash_first (trim_left_dashes s) ≡ false
unfolding trim_left_dashes
trim_left_first String.[] = refl
trim_left_first (String.◌∷◌ c s) =
    if_cases (λ x. has_dash_first x ≡ false) (code c == 45) (trim_left_dashes s) (String.◌∷◌ c s)
      (λ _. trim_left_first s) (λ n. n)

trim_right_first :
    (s : String) → has_dash_first s ≡ false → has_dash_first (trim_right_dashes s) ≡ false
unfolding trim_right_dashes
trim_right_first String.[] h = h
trim_right_first (String.◌∷◌ c s) h =
    if_cases (λ x. has_dash_first x ≡ false) (is_empty (trim_right_dashes s) && code c == 45) ""
      (String.◌∷◌ c (trim_right_dashes s)) (λ _. refl) (λ _. h)

released : is_clean "release" ≡ true
unfolding is_plain
released = refl

-- A part of a file name that is safe.
pub record IsSlug (s : String) : Type 0 where
  pub clean : is_clean s ≡ true
  pub nonempty : is_empty s ≡ false
  pub undashed : has_dash_first s ≡ false

-- Whatever the title and Unicode's case tables, a slug is not empty, has only letters from a to z,
-- digits and dashes, so no separator and no dot, and does not begin with a dash.
pub slug-IsSlug : (go : Matchers) (input : String) → IsSlug (slug go input)
unfolding slug
slug-IsSlug go input =
    let squeezed = squeeze (to_lower go (trim_space input)) false in
    let result = trim_right_dashes (trim_left_dashes squeezed) in
    if_cases IsSlug (is_empty result) "release" result
      (λ _. record { clean = released; nonempty = refl; undashed = refl })
      (λ n. record {
        clean =
            trim_right_clean (trim_left_dashes squeezed)
              (trim_left_clean squeezed (squeeze_clean (to_lower go (trim_space input)) false));
        nonempty = n;
        undashed = trim_right_first (trim_left_dashes squeezed) (trim_left_first squeezed);
      })
