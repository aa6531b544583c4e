-- ===== src/Base/Errors.antt =====
-- Go's `(value, error)`: a result, and a loop that stops at the first error.
use Prim.Native.String.{String, ◌++◌}
use mathlib.Core.Path.{◌≡◌, refl, subst}
use mathlib.Core.Bool.{Bool, true, false}

-- `cyclic_replacement` is the one error that the program tells apart, by `errors.Is`; it wraps the
-- sentinel `errCyclicReplacement` behind the target's id.
pub data Error : Type 0 where
  errorf : String → Error
  cyclic_replacement : String → Error

-- `err.Error()`
unfoldable pub error_text : Error → String
error_text (errorf m) = m
error_text (cyclic_replacement id) =
    "target "
    ++ (id ++ ": cyclic same-path replacement; choose distinct output names for this regroup")

-- `errors.Is(err, errCyclicReplacement)`
unfoldable pub is_cyclic_replacement : Error → Bool
is_cyclic_replacement (errorf m) = false
is_cyclic_replacement (cyclic_replacement id) = true

-- What a Go function returns: an error, or a value.
pub data Result {ℓ} (A : Type ℓ) : Type ℓ where
  err : Error → Result A
  ok : A → Result A

module _ {ℓ κ} {A : Type ℓ} {B : Type κ} where
  infixl 5 ◌>>=◌
  -- `if err != nil { return err }`
  abbrev pub ◌>>=◌ : Result A → (A → Result B) → Result B
  err failure >>= _ = err failure
  ok value >>= rest = rest value

  -- If the whole returns a value, then so does its first step.
  pub ok-bind_inv :
      (first_step : Result A) (rest : A → Result B) {value : B}
      → (first_step >>= rest) ≡ ok value
      → (a : A) × (first_step ≡ ok a) × (rest a ≡ ok value)
  ok-bind_inv (err failure) rest h = cc
  ok-bind_inv (ok a) rest h = (a, refl, h)

module _ {ℓ} {A : Type ℓ} where
  pub ok-injective : {x y : A} → ok x ≡ ok y → x ≡ y
  ok-injective h = cc

-- What holds of the value, if there is one.
abbrev pub IfOk {ℓ κ} : {A : Type ℓ} → (A → Type κ) → Result A → Type κ
IfOk P (err failure) = Unit
IfOk P (ok value) = P value

pub IfOk-bind {ℓ κ} :
    {A : Type ℓ} {B : Type ℓ} (P : A → Type κ) (Q : B → Type κ) (m : Result A) (rest : A → Result B)
    → IfOk P m
    → ((a : A) → P a → IfOk Q (rest a))
    → IfOk Q (m >>= rest)
IfOk-bind P Q (err failure) rest p f = tt
IfOk-bind P Q (ok a) rest p f = f a p

pub IfOk-ok {ℓ κ} : {A : Type ℓ} (P : A → Type κ) (m : Result A) (a : A) → IfOk P m → m ≡ ok a → P a
IfOk-ok P (err failure) a p e = absurd (cc)
IfOk-ok P (ok b) a p e = subst P (ok-injective e) p

pub IfOk-imp {ℓ κ} :
    {A : Type ℓ} (P Q : A → Type κ) (m : Result A) → ((a : A) → P a → Q a) → IfOk P m → IfOk Q m
IfOk-imp P Q (err failure) f p = tt
IfOk-imp P Q (ok a) f p = f a p
