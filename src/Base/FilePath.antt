-- ===== src/Base/FilePath.antt =====
-- Go's `filepath.Join`: empty elements are dropped, the rest is joined by slashes and cleaned. The
-- destination of every file that a publisher writes is one such call.
use Prim.Native.Char.{code}
use Prim.Native.String.{String, ◌++◌}
use mathlib.Core.Path.{◌≡◌, refl}
use mathlib.Core.Bool.{Bool, true, false, ◌||◌, ◌&&◌, not}
use mathlib.Core.List.{List, [], ◌∷◌, reverse}
use serial_sync.Base.Tests.{◌==◌, ◌≟◌, if◌then◌else◌, is_empty}
use serial_sync.Base.Lists.{select}

-- The text between slashes; `cur` is the segment being read, back to front.
segments : String → String → List String
segments String.[] cur = cur ∷ []
segments (String.◌∷◌ c s) cur = elim (code c == b'/') [
  | true ↦ cur ∷ segments s ""
  | false ↦ segments s (cur ++ String.◌∷◌ c String.[])
]

rooted : String → Bool
rooted String.[] = false
rooted (String.◌∷◌ c s) = code c == b'/'

-- One segment of `Clean`, on the stack of segments kept so far, last first.
push : Bool → String → List String → List String
push abs seg [] =
    if is_empty seg || seg ≟ "." then [] else if seg ≟ ".." && abs then [] else seg ∷ []
push abs seg (top ∷ stack) =
    if is_empty seg || seg ≟ "."
    then top ∷ stack
    else if seg ≟ ".." && not (top ≟ "..")
    then stack
    else seg ∷ top ∷ stack

clean_segments : Bool → List String → List String → List String
clean_segments abs [] stack = reverse stack
clean_segments abs (s ∷ ss) stack = clean_segments abs ss (push abs s stack)

slashed : List String → String
slashed [] = ""
slashed (s ∷ []) = s
slashed (s ∷ t ∷ ss) = s ++ ("/" ++ slashed (t ∷ ss))

unfoldable pub clean : String → String
unfolding segments rooted push clean_segments slashed
clean s =
    let body = slashed (clean_segments (rooted s) (segments s "") []) in
    if rooted s then "/" ++ body else if is_empty body then "." else body

unfoldable pub join : List String → String
unfolding clean
join parts =
    let kept = select (λ p. not (is_empty p)) parts in
    if is_empty (slashed kept) then "" else clean (slashed kept)

join_relative : join ("lib" ∷ "" ∷ "a/../b" ∷ "./c.epub" ∷ []) ≡ "lib/b/c.epub"
unfolding join
join_relative = refl

join_rooted : join ("/../books/" ∷ "src" ∷ "track" ∷ "x.epub" ∷ []) ≡ "/books/src/track/x.epub"
unfolding join
join_rooted = refl

join_parent : join ("a" ∷ "../../b" ∷ []) ≡ "../b"
unfolding join
join_parent = refl
