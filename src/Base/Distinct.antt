-- ===== src/Base/Distinct.antt =====
-- Texts that stand in a list at most once, and how many of them a list can hold.
use Prim.Native.Nat.{suc, ◌≤◌}
use Prim.Native.String.{String}
use mathlib.Core.Path.{◌≡◌, refl, sym, ◌∙◌}
use mathlib.Core.Logic.{inl, inr}
use mathlib.Core.Bool.{true, false, false≢true}
use mathlib.Core.List.{List, [], ◌∷◌}
use native.Mathlib.Omega.{arith}
use serial_sync.Base.Tests.{◌≟◌, if◌then◌else◌, Bool-cases, ≟→≡, ||_false}
use text.Mathlib.TextEquality.{eq_iff}
use serial_sync.Base.Lists.{All, All-imp, length, contains, contains-cons_self}

-- No text stands twice in the list.
abbrev pub NoRepeat : List String → Type 0
NoRepeat [] = Unit
NoRepeat (k ∷ keys) = All (λ x. (k ≟ x) ≡ false) keys × NoRepeat keys

-- Each of the texts stands in the list.
abbrev pub Within : List String → List String → Type 0
Within ys xs = All (λ x. contains ys x ≡ true) xs

-- The list without the first place of a text.
remove : String → List String → List String
remove k [] = []
remove k (y ∷ ys) = let rest = remove k ys in if y ≟ k then ys else y ∷ rest

length-remove :
    (k : String) (ys : List String) → contains ys k ≡ true → suc (length (remove k ys)) ≡ length ys
unfolding remove contains
length-remove k [] h = absurd (false≢true h)
length-remove k (y ∷ ys) h = ground (arith, length-remove k ys)

contains-remove :
    (k x : String) (ys : List String)
    → (k ≟ x) ≡ false
    → contains ys x ≡ true
    → contains (remove k ys) x ≡ true
unfolding remove contains
contains-remove k x [] n h = h
contains-remove k x (y ∷ ys) n h = elim (Bool-cases (y ≟ k)) [
  | inl e ↦ rw e (let q : (y ≟ x) ≡ false = (rw (← ≟→≡ y k e) at n) in (rw q at h))
  | inr d ↦ rw d (elim (Bool-cases (y ≟ x)) [
    | inl e ↦ rw e refl
    | inr q ↦ rw q (contains-remove k x ys n (rw q at h))
  ])
]

Within-remove :
    (k : String) (xs ys : List String)
    → All (λ x. (k ≟ x) ≡ false) xs
    → Within ys xs
    → Within (remove k ys) xs
Within-remove k [] ys n h = tt
Within-remove k (x ∷ xs) ys (n, ns) (h, hs) =
    (contains-remove k x ys n h, Within-remove k xs ys ns hs)

-- A list without repetition has no more texts than a list that holds them all.
pub NoRepeat-length : (xs ys : List String) → NoRepeat xs → Within ys xs → length xs ≤ length ys
NoRepeat-length [] ys n h = omega arith
NoRepeat-length (x ∷ xs) ys (n, ns) (h, hs) =
    omega (
      arith,
      length-remove x ys h,
      NoRepeat-length xs (remove x ys) ns (Within-remove x xs ys n hs),
    )

-- A text that stands nowhere in a list differs from each of its texts.
pub contains-apart :
    (xs : List String) (k : String) → contains xs k ≡ false → All (λ x. (k ≟ x) ≡ false) xs
unfolding contains
contains-apart [] k h = tt
contains-apart (x ∷ xs) k h = elim (Bool-cases (k ≟ x)) [
  | inl e ↦
      absurd
        (false≢true (sym (||_false (x ≟ k) (contains xs k) h).0 ∙ (eq_iff x k).1 (sym (≟→≡ k x e))))
  | inr n ↦ (n, contains-apart xs k (||_false (x ≟ k) (contains xs k) h).1)
]

Within-more : (y : String) (ys xs : List String) → Within ys xs → Within (y ∷ ys) xs
unfolding contains
Within-more y ys xs h = All-imp _ _ (λ x e. ground (arith, e)) xs h

-- A list holds its own texts.
pub Within-self : (xs : List String) → Within xs xs
Within-self [] = tt
Within-self (x ∷ xs) = (contains-cons_self xs x, Within-more x xs xs (Within-self xs))
