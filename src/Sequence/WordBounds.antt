-- ===== src/Sequence/WordBounds.antt =====
-- internal/sequence/detect.go: how many tokens `parseNumberTokens` takes.
use mathlib.Core.Path.{subst}
use serial_sync.Base.{
  ℕ, suc, ◌+◌, ◌*◌, ◌≤◌, String, Bool, true, false, Option, none, some, List, [], ◌∷◌, ◌≡◌, ◌≟◌,
  if◌then◌else◌, length, arith,
}
use serial_sync.Sequence.Words.{
  wrap, at_least_one, number_word_value, parse_simple_number, parse_words, parse_number_tokens,
}

-- The tokens taken lie between the two numbers, if any are taken.
abbrev Within : ℕ → ℕ → Option (ℕ × ℕ) → Type 0
Within least most none = Unit
Within least most (some (n, taken)) = (least ≤ taken) × (taken ≤ most)

Within-imp : (a b c d : ℕ) (r : Option (ℕ × ℕ)) → c ≤ a → b ≤ d → Within a b r → Within c d r
Within-imp a b c d none _ _ _ = tt
Within-imp a b c d (some (n, taken)) p q (h, k) = (omega arith, omega arith)

-- One at least, unless a number word has been read before.
abbrev least_taken : Bool → ℕ → ℕ
least_taken matched consumed = if matched then consumed else consumed + 1

-- `if_cases` for a case distinction on a truth value.
elim_cases :
    {A : Type 0} (P : A → Type 0) (b : Bool) (x y : A)
    → P x
    → P y
    → P (elim b [ true ↦ x | false ↦ y ])
elim_cases P true x y p q = p
elim_cases P false x y p q = q

abbrev Taken : Bool → ℕ → List String → Option (ℕ × ℕ) → Type 0
Taken m k tokens = Within (least_taken m k) (k + suc (length tokens))

-- "and", "hundred" and "thousand" need a number word before them.
needs_word :
    (m : Bool) (k : ℕ) (tokens : List String) (r : Option (ℕ × ℕ))
    → Taken m k tokens r
    → Taken m k tokens (elim m [ true ↦ r | false ↦ none ])
needs_word true k tokens r h = h
needs_word false k tokens r h = tt

-- No further token is taken.
stops :
    (m : Bool) (k n : ℕ) (tokens : List String) → Taken m k tokens (if m then some (n, k) else none)
stops true k n tokens = (omega arith, omega arith)
stops false k n tokens = tt

-- One more token is taken.
one_more :
    (m : Bool) (k : ℕ) (tokens : List String) (r : Option (ℕ × ℕ))
    → Within (k + 1) (k + 1 + length tokens) r
    → Taken m k tokens r
one_more true k tokens r = Within-imp _ _ _ _ r (omega arith) (omega arith)
one_more false k tokens r = Within-imp _ _ _ _ r (omega arith) (omega arith)

parse_words-Within :
    (tokens : List String) (total current consumed : ℕ) (matched : Bool)
    → Within
        (least_taken matched consumed)
        (consumed + length tokens)
        (parse_words tokens total current consumed matched)
unfolding parse_words
parse_words-Within [] total current k true = (omega arith, omega arith)
parse_words-Within [] total current k false = tt
parse_words-Within (token ∷ tokens) total current k m =
    elim_cases (Taken m k tokens) (token ≟ "and") _ _
      (needs_word m k tokens _
        (one_more m k tokens _ (parse_words-Within tokens total current (k + 1) true)))
      (elim_cases (Taken m k tokens) (token ≟ "hundred") _ _
        (needs_word m k tokens _ (
          one_more m k tokens _
            (parse_words-Within tokens total (wrap (at_least_one current * 100)) (k + 1) true)))
        (elim_cases (Taken m k tokens) (token ≟ "thousand") _ _
          (needs_word m k tokens _ (
            one_more m k tokens _ (
              parse_words-Within tokens (wrap (total + at_least_one current * 1000)) 0 (k + 1)
                true)))
          (elim (number_word_value token)
            as (λ v. Taken m k tokens (elim v [
              | some n ↦ parse_words tokens total (wrap (current + n)) (k + 1) true
              | none ↦ if m then some (wrap (total + current), k) else none
            ])) [
              | some n ↦
                  one_more m k tokens _
                    (parse_words-Within tokens total (wrap (current + n)) (k + 1) true)
              | none ↦ stops m k _ tokens
            ])))

-- A number in a title takes at least one of the tokens and no more than there are.
pub parse_number_tokens-Within :
    (tokens : List String) (n taken : ℕ)
    → parse_number_tokens tokens ≡ some (n, taken)
    → (1 ≤ taken) × (taken ≤ length tokens)
unfolding parse_number_tokens
parse_number_tokens-Within [] n taken h = absurd (cc)
parse_number_tokens-Within (token ∷ tokens) n taken h =
    elim (parse_simple_number token)
        as (λ v.
          elim v [ some m ↦ some (m, 1) | none ↦ parse_words (token ∷ tokens) 0 0 0 false ]
            ≡ some (n, taken)
          → (1 ≤ taken) × (taken ≤ length (token ∷ tokens))) [
            | some m ↦ λ e. (let q : 1 ≡ taken = cc in (omega arith, omega arith))
            | none ↦ λ e.
                let w : Within 1 (0 + length (token ∷ tokens)) (some (n, taken)) =
                  subst (Within 1 (0 + length (token ∷ tokens))) e
                    (parse_words-Within (token ∷ tokens) 0 0 0 false) in
                (w.0, omega (arith, w.1))
          ]
      h
