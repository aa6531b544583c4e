-- ===== src/Base/Stateful.antt =====
-- A step of a program on a state, and what holds of the state and of the answer after it.
use mathlib.Core.Path.{◌≡◌, refl}
use mathlib.Core.Bool.{Bool, true, false}

-- A step answers a value and leaves a new state.
abbrev pub Step : Type 0 → Type 0 → Type 0
Step W A = W → W × A

module _ {W A : Type 0} where
  unfoldable pub return : A → Step W A
  return a w = (w, a)

  -- Read the state and leave it as it is.
  unfoldable pub observe : (W → A) → Step W A
  observe read w = (w, read w)

  infix 1 when◌then◌else◌
  -- An `if` between steps, which the rules below read.
  unfoldable pub when◌then◌else◌ : Bool → Step W A → Step W A → Step W A
  when true then m else n = m
  when false then m else n = n

  -- From a state with `P`, the step leaves a state with `P` and answers a value with `Q`.
  unfoldable pub Holds : (W → Type 0) → (A → Type 0) → Step W A → Type 0
  Holds P Q m = (w : W) → P w → P (m w).0 × Q (m w).1

  -- The step keeps `P`, whatever it answers.
  abbrev pub Keeps : (W → Type 0) → Step W A → Type 0
  Keeps P m = Holds P (λ a. Unit) m

module _ {W A B : Type 0} where
  infixl 5 ◌>>=◌
  unfoldable pub ◌>>=◌ : Step W A → (A → Step W B) → Step W B
  ◌>>=◌ m rest w = let x = m w in rest x.1 x.0

module _ {W A : Type 0} (P : W → Type 0) (Q : A → Type 0) where
  pub Holds-return : (a : A) → Q a → Holds P Q (return a)
  unfolding Holds return
  Holds-return a q w p = (p, q)

  pub Holds-observe : (read : W → A) → ((w : W) → P w → Q (read w)) → Holds P Q (observe read)
  unfolding Holds observe
  Holds-observe read h w p = (p, h w p)

  pub Holds-when :
      (b : Bool) (m n : Step W A)
      → (b ≡ true → Holds P Q m)
      → (b ≡ false → Holds P Q n)
      → Holds P Q (when b then m else n)
  unfolding when◌then◌else◌
  Holds-when true m n hm hn = hm refl
  Holds-when false m n hm hn = hn refl

pub Holds-imp :
    {W A : Type 0} (P : W → Type 0) (Q S : A → Type 0) (m : Step W A)
    → ((a : A) → Q a → S a)
    → Holds P Q m
    → Holds P S m
unfolding Holds
Holds-imp P Q S m f h w p = let (p', q) = h w p in (p', f (m w).1 q)

module _ {W A B : Type 0} (P : W → Type 0) where
  pub Holds-bind :
      (Q : A → Type 0) (S : B → Type 0) (m : Step W A) (rest : A → Step W B)
      → Holds P Q m
      → ((a : A) → Q a → Holds P S (rest a))
      → Holds P S (m >>= rest)
  unfolding Holds ◌>>=◌
  Holds-bind Q S m rest hm hr w p = let (p', q) = hm w p in hr (m w).1 q (m w).0 p'

  -- The first step's answer may be anything.
  pub Keeps-bind :
      (S : B → Type 0) (m : Step W A) (rest : A → Step W B)
      → Keeps P m
      → ((a : A) → Holds P S (rest a))
      → Holds P S (m >>= rest)
  unfolding Holds ◌>>=◌
  Keeps-bind S m rest hm hr w p = let (p', q) = hm w p in hr (m w).1 (m w).0 p'
