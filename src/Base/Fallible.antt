-- ===== src/Base/Fallible.antt =====
-- The outcome of an operation that may throw or call fatal(): both end the operation, and the
-- simulation with it, since every caller turns an exception into fatal().
use mathlib.Core.Path.{◌≡◌, refl, subst}
use mathlib.Core.Bool.{Bool, true, false}
use quetz.Base.Compare.{if◌then◌else◌}

-- std::logic_error, std::invalid_argument, std::runtime_error, Output::fatal, and the end of a
-- model's fuel (which each model proves not to happen).
pub data Error : Type 0 where
  logic_error invalid_argument runtime_error fatal out_of_fuel : Error

pub data Outcome {ℓ} (A : Type ℓ) : Type ℓ where
  ok : A → Outcome A
  err : Error → Outcome A

infixl 5 ◌>>=◌
abbrev pub ◌>>=◌ {ℓ κ} : {A : Type ℓ} {B : Type κ} → Outcome A → (A → Outcome B) → Outcome B
ok a >>= f = f a
err e >>= f = err e

-- What holds of the result, if there is one.
abbrev pub Ensures {ℓ κ} : {A : Type ℓ} → (A → Type κ) → Outcome A → Type κ
Ensures P (ok a) = P a
Ensures P (err e) = Unit

pub Ensures-bind {ℓ κ} :
    {A B : Type ℓ} (P : A → Type κ) (Q : B → Type κ) (m : Outcome A) (f : A → Outcome B)
    → Ensures P m
    → ((a : A) → P a → Ensures Q (f a))
    → Ensures Q (m >>= f)
Ensures-bind P Q (ok a) f h k = k a h
Ensures-bind P Q (err e) f h k = tt

pub Ensures-ok {ℓ κ} :
    {A : Type ℓ} (P : A → Type κ) (m : Outcome A) {a : A} → Ensures P m → m ≡ ok a → P a
Ensures-ok P (ok b) h e = subst P (cc) h
Ensures-ok P (err x) h e = absurd (cc)

-- As `Ensures`, and the only failure is a call of fatal().
abbrev IsFatal : Error → Type 0
IsFatal fatal = Unit
IsFatal _ = ⊥

abbrev pub Meets : {A : Type 0} → (A → Type 0) → Outcome A → Type 0
Meets P (ok a) = P a
Meets P (err e) = IsFatal e

pub Meets-bind :
    {A B : Type 0} (P : A → Type 0) (Q : B → Type 0) (m : Outcome A) (f : A → Outcome B)
    → Meets P m
    → ((a : A) → P a → Meets Q (f a))
    → Meets Q (m >>= f)
Meets-bind P Q (ok a) f h k = k a h
Meets-bind P Q (err e) f h k = h

module _ {ℓ κ} {A : Type ℓ} where
  pub Ensures-mono :
      (P Q : A → Type κ) (m : Outcome A) → Ensures P m → ((a : A) → P a → Q a) → Ensures Q m
  Ensures-mono P Q (ok a) h k = k a h
  Ensures-mono P Q (err e) h k = tt

  -- A guard that fails.
  pub Ensures-guard :
      (Q : A → Type κ) (b : Bool) (e : Error) (m : Outcome A)
      → Ensures Q m
      → Ensures Q (if b then err e else m)
  Ensures-guard Q true e m h = tt
  Ensures-guard Q false e m h = h

  -- A guard that fails, whose test is then known to have failed.
  pub Ensures-guard_false :
      (Q : A → Type κ) (b : Bool) (e : Error) (m : Outcome A)
      → (b ≡ false → Ensures Q m)
      → Ensures Q (if b then err e else m)
  Ensures-guard_false Q true e m h = tt
  Ensures-guard_false Q false e m h = h refl

  pub Ensures-if :
      (Q : A → Type κ) (b : Bool) (m n : Outcome A)
      → Ensures Q m
      → Ensures Q n
      → Ensures Q (if b then m else n)
  Ensures-if Q true m n hm hn = hm
  Ensures-if Q false m n hm hn = hn

pub Ensures-bind_eq {ℓ κ} :
    {A B : Type ℓ} (Q : B → Type κ) (m : Outcome A) (f : A → Outcome B)
    → ((a : A) → m ≡ ok a → Ensures Q (f a))
    → Ensures Q (m >>= f)
Ensures-bind_eq Q (ok a) f k = k a refl
Ensures-bind_eq Q (err e) f k = tt
