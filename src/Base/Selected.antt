-- ===== src/Base/Selected.antt =====
-- How many elements of a list pass a test: two of them stand at two places.
use Prim.Native.Nat.{ℕ, zero, suc}
use mathlib.Core.Path.{◌≡◌, refl, ap}
use mathlib.Core.Logic.{◌≢◌, inl, inr}
use mathlib.Core.Bool.{Bool, true, false≢true}
use mathlib.Core.Option.{some}
use mathlib.Core.List.{List, [], ◌∷◌, map}
use native.Mathlib.Omega.{arith}
use serial_sync.Base.Tests.{ltb, Bool-cases}
use serial_sync.Base.Lists.{length, get_elem?, select}

module _ {A : Type 0} where
  selected_any :
      (p : A → Bool) (xs : List A)
      → ltb 0 (length (select p xs)) ≡ true
      → (j : ℕ) × (e : A) × (get_elem? xs j ≡ some e) × (p e ≡ true)
  selected_any p [] h = absurd (false≢true h)
  selected_any p (x ∷ xs) h = elim (Bool-cases (p x)) [
    | inl t ↦ (0, x, refl, t)
    | inr f ↦ let (j, e, at, t) = selected_any p xs (rw f at h) in (suc j, e, at, t)
  ]

  -- Of two that pass, one stands elsewhere.
  pub selected_other :
      (p : A → Bool) (xs : List A) (i : ℕ)
      → ltb 1 (length (select p xs)) ≡ true
      → (j : ℕ) × (e : A) × (j ≢ i) × (get_elem? xs j ≡ some e) × (p e ≡ true)
  selected_other p [] i h = absurd (false≢true h)
  selected_other p (x ∷ xs) zero h = elim (Bool-cases (p x)) [
    | inl t ↦
        let (j, e, at, u) = selected_any p xs (ground (arith, t)) in
        (suc j, e, (λ q. absurd (omega (arith, q))), at, u)
    | inr f ↦
        let (j, e, at, u) = selected_any p xs (ground (arith, f)) in
        (suc j, e, (λ q. absurd (omega (arith, q))), at, u)
  ]
  selected_other p (x ∷ xs) (suc i) h = elim (Bool-cases (p x)) [
    | inl t ↦ (0, x, (λ q. absurd (omega (arith, q))), refl, t)
    | inr f ↦
        let (j, e, n, at, u) = selected_other p xs i (rw f at h) in
        (suc j, e, (λ q. n (omega (arith, q))), at, u)
  ]

  selected_one :
      (p : A → Bool) (xs : List A) (i : ℕ) (c : A)
      → get_elem? xs i ≡ some c
      → p c ≡ true
      → ltb 0 (length (select p xs)) ≡ true
  selected_one p [] i c at t = absurd (cc)
  selected_one p (x ∷ xs) zero c at t = let same : x ≡ c = cc in rw (same, t) (ground arith)
  selected_one p (x ∷ xs) (suc i) c at t = elim (Bool-cases (p x)) [
    | inl h ↦ rw h (ground arith)
    | inr h ↦ rw h (selected_one p xs i c at t)
  ]

  pub selected_two :
      (p : A → Bool) (xs : List A) (i j : ℕ) (c d : A)
      → get_elem? xs i ≡ some c
      → get_elem? xs j ≡ some d
      → j ≢ i
      → p c ≡ true
      → p d ≡ true
      → ltb 1 (length (select p xs)) ≡ true
  selected_two p [] i j c d ci dj n t u = absurd (cc)
  selected_two p (x ∷ xs) zero zero c d ci dj n t u = absurd (n refl)
  selected_two p (x ∷ xs) zero (suc j) c d ci dj n t u =
      let same : x ≡ c = cc in let more = selected_one p xs j d dj u in rw (same, t) (ground arith)
  selected_two p (x ∷ xs) (suc i) zero c d ci dj n t u =
      let same : x ≡ d = cc in let more = selected_one p xs i c ci t in rw (same, u) (ground arith)
  selected_two p (x ∷ xs) (suc i) (suc j) c d ci dj n t u =
      let apart : j ≢ i = λ q. n (ap suc q) in
      let two = selected_two p xs i j c d ci dj apart t u in
      elim (Bool-cases (p x)) [ inl h ↦ rw h (ground arith) | inr h ↦ rw h two ]

  pub get_elem?-map :
      (f : A → A) (xs : List A) (i : ℕ) (c : A)
      → get_elem? xs i ≡ some c
      → get_elem? (map f xs) i ≡ some (f c)
  get_elem?-map f [] i c h = absurd (cc)
  get_elem?-map f (x ∷ xs) zero c h = ap some (ap f (cc))
  get_elem?-map f (x ∷ xs) (suc i) c h = get_elem?-map f xs i c h
