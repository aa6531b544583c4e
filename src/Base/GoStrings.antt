-- ===== src/Base/GoStrings.antt =====
-- Functions of Go's `strings` that the program applies to names. Unicode's case tables and the two
-- matchers are fields of `Matchers`, so that a definition says which of them it reads.
use Prim.Native.Nat.{ℕ, zero, suc}
use Prim.Native.Char.{Char, code}
use Prim.Native.String.{String, ◌++◌}
use mathlib.Core.Path.{◌≡◌, refl}
use mathlib.Core.Bool.{Bool, true, false, ◌&&◌, ◌||◌}
use mathlib.Core.List.{List, [], ◌∷◌}
use mathlib.Core.Option.{Option, none, some}
use serial_sync.Base.Tests.{◌==◌, ◌≟◌, leb, is_empty, if◌then◌else◌}

-- `regexp.MatchString` of a compiled expression.
abbrev pub Pattern : Type 0
Pattern = String → Bool

pub record Matchers : Type 0 where
  -- The least rune of a rune's orbit under `unicode.SimpleFold`.
  pub fold : Char → Char
  -- `unicode.ToLower`
  pub lower : Char → Char
  -- `filepath.Match`: the pattern, then the name; a malformed pattern matches nothing.
  pub glob : String → String → Bool
  -- `regexp.Compile`
  pub regexp : String → Option Pattern

-- `unicode.IsSpace`
unfoldable pub is_space : ℕ → Bool
is_space c =
    (leb 9 c && leb c 13)
    || c == 32
    || c == 133
    || c == 160
    || c == 5760
    || (leb 8192 c && leb c 8202)
    || c == 8232
    || c == 8233
    || c == 8239
    || c == 8287
    || c == 12288

-- `strings.TrimLeftFunc` with `unicode.IsSpace`
trim_left : String → String
unfolding is_space
trim_left String.[] = ""
trim_left (String.◌∷◌ c s) =
    let rest = trim_left s in if is_space (code c) then rest else String.◌∷◌ c s

trim_right : String → String
unfolding is_space
trim_right String.[] = ""
trim_right (String.◌∷◌ c s) =
    let rest = trim_right s in if is_empty rest && is_space (code c) then "" else String.◌∷◌ c rest

-- `strings.TrimSpace`
unfoldable pub trim_space : String → String
unfolding trim_left trim_right
trim_space s = trim_left (trim_right s)

-- `strings.ToLower`
unfoldable pub to_lower : Matchers → String → String
to_lower go String.[] = ""
to_lower go (String.◌∷◌ c s) = String.◌∷◌ (go.lower c) (to_lower go s)

-- `strings.EqualFold`
unfoldable pub equal_fold : Matchers → String → String → Bool
equal_fold go String.[] t = is_empty t
equal_fold go (String.◌∷◌ c s) String.[] = false
equal_fold go (String.◌∷◌ c s) (String.◌∷◌ d t) =
    code (go.fold c) == code (go.fold d) && equal_fold go s t

-- `strings.HasSuffix`
unfoldable pub has_suffix : String → String → Bool
has_suffix String.[] suffix = is_empty suffix
has_suffix (String.◌∷◌ c s) suffix = String.◌∷◌ c s ≟ suffix || has_suffix s suffix

-- `strings.TrimPrefix(s, ".")`
unfoldable pub trim_dot : String → String
trim_dot String.[] = ""
trim_dot (String.◌∷◌ c s) = if code c == 46 then s else String.◌∷◌ c s

-- `strings.ReplaceAll(s, " ", "-")`
unfoldable pub dashed : String → String
dashed String.[] = ""
dashed (String.◌∷◌ c s) = if code c == 32 then "-" ++ dashed s else String.◌∷◌ c (dashed s)

-- `strings.Join`
unfoldable pub joined : String → List String → String
joined separator [] = ""
joined separator (x ∷ []) = x
joined separator (x ∷ y ∷ rest) = x ++ (separator ++ joined separator (y ∷ rest))

-- The length of a text in runes. Go counts bytes; the program only adds and compares positions of
-- one text, so runes give the same slices.
unfoldable pub runes : String → ℕ
runes String.[] = 0
runes (String.◌∷◌ c s) = suc (runes s)

abbrev pub min : ℕ → ℕ → ℕ
min a b = if leb a b then a else b

abbrev pub max : ℕ → ℕ → ℕ
max a b = if leb a b then b else a

-- `text[first:last]`
unfoldable pub slice : ℕ → ℕ → String → String
slice first zero text = ""
slice first (suc last) String.[] = ""
slice zero (suc last) (String.◌∷◌ c s) = String.◌∷◌ c (slice 0 last s)
slice (suc first) (suc last) (String.◌∷◌ c s) = slice first last s

-- `strings.HasPrefix`
unfoldable pub has_prefix : String → String → Bool
has_prefix text String.[] = true
has_prefix String.[] (String.◌∷◌ d t) = false
has_prefix (String.◌∷◌ c s) (String.◌∷◌ d t) = code c == code d && has_prefix s t

-- `strings.Index`: where the pattern first stands in the text.
unfoldable pub index_of : String → String → Option ℕ
unfolding has_prefix
index_of pattern String.[] = if is_empty pattern then some 0 else none
index_of pattern (String.◌∷◌ c s) =
    let later = index_of pattern s in
    if has_prefix (String.◌∷◌ c s) pattern
    then some 0
    else elim later [ none ↦ none | some n ↦ some (suc n) ]

unfoldable pub has_slash : String → Bool
has_slash String.[] = false
has_slash (String.◌∷◌ c s) = code c == 47 || has_slash s

trim_space_example : trim_space " a b\t" ≡ "a b"
unfolding trim_space trim_left trim_right is_space
trim_space_example = refl

has_suffix_example : has_suffix "book.epub" ".epub" ≡ true
unfolding has_suffix
has_suffix_example = refl
