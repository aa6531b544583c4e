-- ===== src/Base/Text.antt =====
-- Texts that the program builds or walks.
use Prim.Native.Nat.{ℕ, zero, suc, ◌+◌, ◌/◌, ◌%◌}
use Prim.Native.Char.{code}
use Prim.Native.String.{String}
pub use Prim.Native.String.{◌++◌ as ◌⧺◌}
use mathlib.Core.Path.{◌≡◌, refl}
use mathlib.Core.List.{List, [], ◌∷◌}
use serial_sync.Base.Tests.{◌==◌, if◌then◌else◌}

-- The code points of a text.
abbrev pub codes : String → List ℕ
codes String.[] = []
codes (String.◌∷◌ c s) = code c ∷ codes s

-- The digit of a number below ten.
digit : ℕ → String
digit n =
    if n == 0
    then "0"
    else if n == 1
    then "1"
    else if n == 2
    then "2"
    else if n == 3
    then "3"
    else if n == 4
    then "4"
    else if n == 5
    then "5"
    else if n == 6
    then "6"
    else if n == 7
    then "7"
    else if n == 8
    then "8"
    else "9"

-- The decimal digits, least significant last; the fuel bounds their number.
decimal : ℕ → ℕ → String
decimal zero n = ""
decimal (suc f) n =
    let front = decimal f (n / 10) in if n / 10 == 0 then digit n else front ⧺ digit (n % 10)

-- `strconv.Itoa`, of a number that is not negative.
unfoldable pub itoa : ℕ → String
unfolding decimal digit
itoa n = decimal (n + 1) n

itoa_example : itoa 1204 ≡ "1204"
unfolding itoa
itoa_example = refl
