-- ===== src/Sequence/Words.antt =====
-- internal/sequence/detect.go: numbers in figures and in words, and the words of a title. A title
-- is cut into its maximal runs of ASCII letters and digits, each with what stands before it, so
-- that the text between two words is the text of the pieces between them.
use Prim.Native.Char.{code}
use serial_sync.Base.{
  ℕ, ◌+◌, ◌-◌, ◌*◌, ◌^◌, ◌%◌, String, Bool, true, false, ◌&&◌, ◌||◌, Option, none, some, List, [],
  ◌∷◌, ◌≟◌, ◌==◌, is_empty, ltb, leb, if◌then◌else◌, ◌≡◌, refl,
}

unfoldable pub is_digit : ℕ → Bool
is_digit c = leb 48 c && leb c 57

-- `[A-Za-z0-9]`
unfoldable pub is_token_rune : ℕ → Bool
unfolding is_digit
is_token_rune c = is_digit c || (leb 65 c && leb c 90) || (leb 97 c && leb c 122)

-- The value of a run of decimal digits after `so_far`; nothing at another rune.
unfoldable pub digits_after : ℕ → String → Option ℕ
unfolding is_digit
digits_after so_far String.[] = some so_far
digits_after so_far (String.◌∷◌ c s) =
    let rest = digits_after (so_far * 10 + (code c - 48)) s in
    if is_digit (code c) then rest else none

-- `strconv.Atoi` of a text without a sign: an `int` has 63 bits for a value that is not negative.
unfoldable pub atoi : String → Option ℕ
unfolding digits_after
atoi s =
    if is_empty s
    then none
    else elim (digits_after 0 s) [ none ↦ none | some n ↦ if ltb n (2 ^ 63) then some n else none ]

abbrev lookup : List (String × ℕ) → String → Option ℕ
lookup [] word = none
lookup ((w, n) ∷ rest) word = if word ≟ w then some n else lookup rest word

-- `numberWordValue`
unfoldable pub number_word_value : String → Option ℕ
number_word_value = lookup (
    ("zero", 0)
    ∷ ("one", 1)
    ∷ ("two", 2)
    ∷ ("three", 3)
    ∷ ("four", 4)
    ∷ ("five", 5)
    ∷ ("six", 6)
    ∷ ("seven", 7)
    ∷ ("eight", 8)
    ∷ ("nine", 9)
    ∷ ("ten", 10)
    ∷ ("eleven", 11)
    ∷ ("twelve", 12)
    ∷ ("thirteen", 13)
    ∷ ("fourteen", 14)
    ∷ ("fifteen", 15)
    ∷ ("sixteen", 16)
    ∷ ("seventeen", 17)
    ∷ ("eighteen", 18)
    ∷ ("nineteen", 19)
    ∷ ("twenty", 20)
    ∷ ("thirty", 30)
    ∷ ("forty", 40)
    ∷ ("fifty", 50)
    ∷ ("sixty", 60)
    ∷ ("seventy", 70)
    ∷ ("eighty", 80)
    ∷ ("ninety", 90)
    ∷ [])

-- `ordinalWordValue`
unfoldable pub ordinal_word_value : String → Option ℕ
ordinal_word_value = lookup (
    ("first", 1)
    ∷ ("second", 2)
    ∷ ("third", 3)
    ∷ ("fourth", 4)
    ∷ ("fifth", 5)
    ∷ ("sixth", 6)
    ∷ ("seventh", 7)
    ∷ ("eighth", 8)
    ∷ ("ninth", 9)
    ∷ ("tenth", 10)
    ∷ [])

-- `parseSimpleNumber`
unfoldable pub parse_simple_number : String → Option ℕ
unfolding atoi ordinal_word_value
parse_simple_number token = elim (atoi token) [ some n ↦ some n | none ↦ ordinal_word_value token ]

-- `current == 0` counts as one before "hundred" and "thousand".
abbrev pub at_least_one : ℕ → ℕ
at_least_one n = if n == 0 then 1 else n

-- A 64-bit `int` that wraps around: from 2^63 on it stands for a negative number.
abbrev pub wrap : ℕ → ℕ
wrap n = n % 2 ^ 64

-- The loop of `parseNumberTokens`: the value and the number of tokens it took.
unfoldable pub parse_words : List String → ℕ → ℕ → ℕ → Bool → Option (ℕ × ℕ)
unfolding number_word_value
parse_words [] total current consumed matched =
    if matched then some (wrap (total + current), consumed) else none
parse_words (token ∷ tokens) total current consumed matched = elim (token ≟ "and") [
  | true ↦ elim matched [
    | true ↦ parse_words tokens total current (consumed + 1) true
    | false ↦ none
  ]
  | false ↦ elim (token ≟ "hundred") [
    | true ↦ elim matched [
      | true ↦ parse_words tokens total (wrap (at_least_one current * 100)) (consumed + 1) true
      | false ↦ none
    ]
    | false ↦ elim (token ≟ "thousand") [
      | true ↦ elim matched [
        | true ↦
            parse_words tokens (wrap (total + at_least_one current * 1000)) 0 (consumed + 1) true
        | false ↦ none
      ]
      | false ↦ elim (number_word_value token) [
        | some n ↦ parse_words tokens total (wrap (current + n)) (consumed + 1) true
        | none ↦ if matched then some (wrap (total + current), consumed) else none
      ]
    ]
  ]
]

-- `parseNumberTokens`
unfoldable pub parse_number_tokens : List String → Option (ℕ × ℕ)
unfolding parse_simple_number parse_words
parse_number_tokens [] = none
parse_number_tokens (token ∷ tokens) = elim (parse_simple_number token) [
  | some n ↦ some (n, 1)
  | none ↦ parse_words (token ∷ tokens) 0 0 0 false
]

words_example :
    parse_number_tokens ("one" ∷ "hundred" ∷ "and" ∷ "twenty" ∷ "three" ∷ "dragons" ∷ [])
    ≡ some (123, 5)
unfolding parse_number_tokens
words_example = refl
