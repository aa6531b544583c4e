-- ===== src/Base/Lists.antt =====
-- Lists: membership and predicates by recursion, Boolean search, length over the native numbers.
use Prim.Native.Nat.{ℕ, zero, suc, ◌+◌}
use Prim.Native.String.{String}
use mathlib.Core.Path.{◌≡◌, refl, sym, subst}
use mathlib.Core.Logic.{◌⊎◌, inl, inr}
use mathlib.Core.Bool.{Bool, true, false, ◌||◌, ◌&&◌}
use mathlib.Core.Option.{Option, none, some}
use mathlib.Core.List.{List, [], ◌∷◌, ◌++◌}
use native.Mathlib.Omega.{arith}
use text.Mathlib.TextPositions.{eq_refl}
use serial_sync.Base.Tests.{◌≟◌, if◌then◌else◌, ≟→≡, Bool-cases, &&_true}

module _ {ℓ} {A : Type ℓ} where
  abbrev pub length : List A → ℕ
  length [] = 0
  length (x ∷ xs) = suc (length xs)

  abbrev pub get_elem? : List A → ℕ → Option A
  get_elem? [] i = none
  get_elem? (x ∷ xs) zero = some x
  get_elem? (x ∷ xs) (suc i) = get_elem? xs i

  abbrev pub any : (A → Bool) → List A → Bool
  any p [] = false
  any p (x ∷ xs) = p x || any p xs

  abbrev pub all : (A → Bool) → List A → Bool
  all p [] = true
  all p (x ∷ xs) = p x && all p xs

  -- The elements that pass the test, in order.
  abbrev pub select : (A → Bool) → List A → List A
  select p [] = []
  select p (x ∷ xs) = let rest = select p xs in if p x then x ∷ rest else rest

  -- The first element that passes the test.
  abbrev pub first : (A → Bool) → List A → Option A
  first p [] = none
  first p (x ∷ xs) = if p x then some x else first p xs

  pub length-append : (xs ys : List A) → length (xs ++ ys) ≡ length xs + length ys
  length-append [] ys = omega arith
  length-append (x ∷ xs) ys = omega (arith, length-append xs ys)

-- What holds of the element, if there is one.
abbrev pub IfSome {ℓ κ} : {A : Type ℓ} → (A → Type κ) → Option A → Type κ
IfSome P none = Unit
IfSome P (some x) = P x

module _ {A : Type 0} where
  -- `x` stands in the list.
  abbrev pub In : A → List A → Type 0
  In x [] = ⊥
  In x (y ∷ ys) = (x ≡ y) ⊎ In x ys

  pub In-append_right : (x : A) (xs ys : List A) → In x ys → In x (xs ++ ys)
  In-append_right x [] ys h = h
  In-append_right x (y ∷ xs) ys h = inr (In-append_right x xs ys h)

  pub In-append_inv : (x : A) (xs ys : List A) → In x (xs ++ ys) → In x xs ⊎ In x ys
  In-append_inv x [] ys h = inr h
  In-append_inv x (y ∷ xs) ys (inl e) = inl (inl e)
  In-append_inv x (y ∷ xs) ys (inr h) = elim (In-append_inv x xs ys h) [
    | inl k ↦ inl (inr k)
    | inr k ↦ inr k
  ]

  -- An element that is put in front under a test.
  pub In-if_inv :
      (b : Bool) (x y : A) (rest : List A)
      → In x (if b then y ∷ rest else rest)
      → ((b ≡ true) × (x ≡ y)) ⊎ In x rest
  In-if_inv true x y rest (inl e) = inl (refl, e)
  In-if_inv true x y rest (inr h) = inr h
  In-if_inv false x y rest h = inr h

  pub In-if_head :
      (b : Bool) (x : A) (rest : List A) → b ≡ true → In x (if b then x ∷ rest else rest)
  In-if_head true x rest h = inl refl
  In-if_head false x rest h = absurd (cc)

  pub In-if_tail :
      (b : Bool) (x y : A) (rest : List A) → In x rest → In x (if b then y ∷ rest else rest)
  In-if_tail true x y rest h = inr h
  In-if_tail false x y rest h = h

  pub In-select : (p : A → Bool) (x : A) (xs : List A) → In x (select p xs) → In x xs × (p x ≡ true)
  In-select p x [] h = absurd h
  In-select p x (y ∷ ys) h = elim (In-if_inv (p y) x y (select p ys) h) [
    | inl (t, e) ↦ (inl e, rw e t)
    | inr k ↦ let (a, b) = In-select p x ys k in (inr a, b)
  ]

  pub select-In : (p : A → Bool) (x : A) (xs : List A) → In x xs → p x ≡ true → In x (select p xs)
  select-In p x [] h t = absurd h
  select-In p x (y ∷ ys) (inl e) t =
      subst (λ z. In x (if p z then z ∷ select p ys else select p ys)) e
        (In-if_head (p x) x (select p ys) t)
  select-In p x (y ∷ ys) (inr k) t = In-if_tail (p y) x y (select p ys) (select-In p x ys k t)

  pub In-append_left : (x : A) (xs ys : List A) → In x xs → In x (xs ++ ys)
  In-append_left x [] ys h = absurd h
  In-append_left x (z ∷ xs) ys (inl e) = inl e
  In-append_left x (z ∷ xs) ys (inr h) = inr (In-append_left x xs ys h)

module _ {ℓ κ} {A : Type ℓ} (P : A → Type κ) where
  abbrev pub All : List A → Type κ
  All [] = Unit
  All (x ∷ xs) = P x × All xs

  pub All-append : (xs ys : List A) → All xs → All ys → All (xs ++ ys)
  All-append [] ys _ hy = hy
  All-append (x ∷ xs) ys (px, hx) hy = (px, All-append xs ys hx hy)

module _ {ℓ κ μ} {A : Type ℓ} (P : A → Type κ) (Q : A → Type μ) (f : (x : A) → P x → Q x) where
  pub All-imp : (xs : List A) → All P xs → All Q xs
  All-imp [] _ = tt
  All-imp (x ∷ xs) (p, ps) = (f x p, All-imp xs ps)

module _ {κ} {A : Type 0} (P : A → Type κ) where
  pub All-In : (x : A) (xs : List A) → All P xs → In x xs → P x
  All-In x [] _ h = absurd h
  All-In x (y ∷ ys) (p, ps) (inl e) = subst P (sym e) p
  All-In x (y ∷ ys) (p, ps) (inr h) = All-In x ys ps h

-- A set or a list of texts holds a text: Go's `map[string]bool` read at a key, `slices.Contains`.
unfoldable pub contains : List String → String → Bool
contains [] k = false
contains (x ∷ xs) k = x ≟ k || contains xs k

pub contains-append :
    (xs ys : List String) (k : String) → contains (xs ++ ys) k ≡ (contains xs k || contains ys k)
unfolding contains
contains-append [] ys k = refl
contains-append (x ∷ xs) ys k = ground (arith, contains-append xs ys k)

pub contains→In : (xs : List String) (k : String) → contains xs k ≡ true → In k xs
unfolding contains
contains→In (x ∷ xs) k h = elim (Bool-cases (x ≟ k)) [
  | inl e ↦ inl (cc (≟→≡ x k e))
  | inr n ↦ inr (contains→In xs k (rw n at h))
]
contains→In [] k h = absurd (cc)

pub contains-cons_self : (xs : List String) (k : String) → contains (k ∷ xs) k ≡ true
unfolding contains
contains-cons_self xs k = rw eq_refl

-- Each element stands in the list.
pub All-In_self : {A : Type 0} (xs : List A) → All (λ x. In x xs) xs
All-In_self [] = tt
All-In_self (x ∷ xs) =
    (inl refl, All-imp (λ y. In y xs) (λ y. In y (x ∷ xs)) (λ y h. inr h) xs (All-In_self xs))

-- A test that every text of a list passes, as a predicate.
pub all-contains-All :
    (covered xs : List String) → all (contains covered) xs ≡ true → All (λ id. In id covered) xs
all-contains-All covered [] h = tt
all-contains-All covered (x ∷ xs) h =
    let (a, b) = &&_true _ _ h in (contains→In covered x a, all-contains-All covered xs b)
