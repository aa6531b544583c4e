-- ===== src/Base/Sort.antt =====
-- Go's `sort.Slice`, `sort.SliceStable` and `sort.Strings`, as a stable insertion sort. Where the
-- program's order is total, or its keys differ, any sort returns the same list.
use Prim.Native.String.{String, compare}
use Prim.Native.Nat.{Ordering}
use mathlib.Core.Path.{◌≡◌, refl, sym, subst}
use mathlib.Core.Logic.{◌⊎◌, inl, inr}
use mathlib.Core.Bool.{Bool, true, false}
use mathlib.Core.List.{List, [], ◌∷◌}
use native.Mathlib.Omega.{arith}
use serial_sync.Base.Tests.{if◌then◌else◌, if_cases}
use serial_sync.Base.Lists.{All, In}

-- `before x y`: the comparison that the program passes, `x < y`.
module _ {ℓ} {A : Type ℓ} (before : A → A → Bool) where
  -- `x` goes behind the elements that are not after it.
  unfoldable pub insert : A → List A → List A
  insert x [] = x ∷ []
  insert x (y ∷ ys) = let rest = insert x ys in if before x y then x ∷ y ∷ ys else y ∷ rest

  unfoldable pub insert_all : List A → List A → List A
  insert_all [] sorted = sorted
  insert_all (x ∷ xs) sorted = insert_all xs (insert x sorted)

unfoldable pub sort_by {ℓ} : {A : Type ℓ} → (A → A → Bool) → List A → List A
unfolding insert insert_all
sort_by before xs = insert_all before xs []

abbrev pub string_lt : String → String → Bool
string_lt s t = elim (compare s t) [ Ordering.lt ↦ true | _ ↦ false ]

-- `sort.Strings`
unfoldable pub sort_strings : List String → List String
unfolding sort_by
sort_strings = sort_by string_lt

module _ {ℓ κ} {A : Type ℓ} (before : A → A → Bool) (P : A → Type κ) where
  pub insert-All : (x : A) (ys : List A) → P x → All P ys → All P (insert before x ys)
  unfolding insert
  insert-All x [] p _ = (p, tt)
  insert-All x (y ∷ ys) p (q, qs) = ground (arith, insert-All x ys p qs)

  insert_all-All : (xs ys : List A) → All P xs → All P ys → All P (insert_all before xs ys)
  unfolding insert_all
  insert_all-All [] ys _ h = h
  insert_all-All (x ∷ xs) ys (p, ps) h =
      insert_all-All xs (insert before x ys) ps (insert-All x ys p h)

  -- What holds of every element holds of every element of the sorted list.
  pub sort_by-All : (xs : List A) → All P xs → All P (sort_by before xs)
  unfolding sort_by
  sort_by-All xs h = insert_all-All xs [] h tt

sorted_ids : sort_strings ("b" ∷ "a" ∷ "ab" ∷ []) ≡ "a" ∷ "ab" ∷ "b" ∷ []
unfolding sort_strings
sorted_ids = refl

module _ {A : Type 0} (before : A → A → Bool) where
  insert-In_self : (x : A) (ys : List A) → In x (insert before x ys)
  unfolding insert
  insert-In_self x [] = inl refl
  insert-In_self x (y ∷ ys) =
      if_cases (In x) (before x y) _ _ (λ _. inl refl) (λ _. inr (insert-In_self x ys))

  insert-In : (z x : A) (ys : List A) → In z ys → In z (insert before x ys)
  unfolding insert
  insert-In z x [] h = absurd h
  insert-In z x (y ∷ ys) (inl e) = if_cases (In z) (before x y) _ _ (λ _. inr (inl e)) (λ _. inl e)
  insert-In z x (y ∷ ys) (inr h) =
      if_cases (In z) (before x y) _ _ (λ _. inr (inr h)) (λ _. inr (insert-In z x ys h))

  insert_all-In : (z : A) (xs ys : List A) → In z xs ⊎ In z ys → In z (insert_all before xs ys)
  unfolding insert_all
  insert_all-In z [] ys (inl h) = absurd h
  insert_all-In z [] ys (inr h) = h
  insert_all-In z (x ∷ xs) ys (inl (inl e)) =
      insert_all-In z xs (insert before x ys)
        (inr (subst (λ w. In w (insert before x ys)) (sym e) (insert-In_self x ys)))
  insert_all-In z (x ∷ xs) ys (inl (inr h)) = insert_all-In z xs (insert before x ys) (inl h)
  insert_all-In z (x ∷ xs) ys (inr h) =
      insert_all-In z xs (insert before x ys) (inr (insert-In z x ys h))

  -- Sorting loses no element.
  pub sort_by-In : (z : A) (xs : List A) → In z xs → In z (sort_by before xs)
  unfolding sort_by
  sort_by-In z xs h = insert_all-In z xs [] (inl h)

module _ {ℓ κ} {A : Type ℓ} (before : A → A → Bool) (P : List A → Type κ) where
  insert_all_keeps :
      ((x : A) (ys : List A) → P ys → P (insert before x ys))
      → (xs ys : List A) → P ys
      → P (insert_all before xs ys)
  unfolding insert_all
  insert_all_keeps f [] ys p = p
  insert_all_keeps f (x ∷ xs) ys p = insert_all_keeps f xs (insert before x ys) (f x ys p)

  -- What the empty list has and an insertion keeps, a sorted list has.
  pub sort_by_keeps :
      ((x : A) (ys : List A) → P ys → P (insert before x ys))
      → P []
      → (xs : List A) → P (sort_by before xs)
  unfolding sort_by
  sort_by_keeps f p xs = insert_all_keeps f xs [] p

pub sort_strings-All {κ} :
    (P : String → Type κ) (xs : List String) → All P xs → All P (sort_strings xs)
unfolding sort_strings
sort_strings-All P xs h = sort_by-All string_lt P xs h
