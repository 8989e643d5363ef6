-- ===== src/Base/Result.antt =====
-- Fallible code: a value, or the exception that was raised.
use mathlib.Core.Path.{◌≡◌, refl}
use mathlib.Core.Logic.{◌⊎◌, inl, inr}
use mathlib.Core.Bool.{Bool, true, false}
use mathlib.Core.Option.{Option, none, some}

pub data Result {ℓ} (E : Type 0) (A : Type ℓ) : Type ℓ where
  ok : A → Result E A
  err : E → Result E A

infixr 5 ◌>>=◌ ◌>>◌
abbrev pub ◌>>=◌ {ℓ κ} :
    {E : Type 0} {A : Type ℓ} {B : Type κ} → Result E A → (A → Result E B) → Result E B
ok a >>= f = f a
err e >>= f = err e

abbrev pub ◌>>◌ {ℓ} : {E : Type 0} {B : Type ℓ} → Result E (Unit {0}) → Result E B → Result E B
m >> k = m >>= λ _. k

module _ {E : Type 0} where
  -- `if test: raise e`
  abbrev pub raise_if : Bool → E → Result E (Unit {0})
  raise_if true e = err e
  raise_if false e = ok tt

  -- `if value is None: raise e`
  abbrev pub or_raise {ℓ} : {A : Type ℓ} → Option A → E → Result E A
  or_raise none e = err e
  or_raise (some a) e = ok a

  pub Result-cases {ℓ} :
      {A : Type ℓ} (r : Result E A) → ((a : A) × (r ≡ ok a)) ⊎ ((e : E) × (r ≡ err e))
  Result-cases (ok a) = inl (a, refl)
  Result-cases (err e) = inr (e, refl)

-- What holds of the value, where there is one.
abbrev pub Then {ℓ κ} : {E : Type 0} {A : Type ℓ} → (A → Type κ) → Result E A → Type κ
Then P (ok a) = P a
Then P (err e) = Unit

pub Then-bind {ℓ κ μ ν} :
    {E : Type 0} {A : Type ℓ} {B : Type κ} (P : A → Type μ) (Q : B → Type ν) (m : Result E A)
    (f : A → Result E B)
    → Then P m
    → ((a : A) → P a → Then Q (f a))
    → Then Q (m >>= f)
Then-bind P Q (ok a) f h k = k a h
Then-bind P Q (err e) f h k = tt

pub Then-or_raise {ℓ} :
    {E : Type 0} {A : Type ℓ} (o : Option A) (e : E) → Then (λ a. o ≡ some a) (or_raise o e)
Then-or_raise none e = tt
Then-or_raise (some a) e = refl

pub Then-map {ℓ κ μ} :
    {E : Type 0} {A : Type ℓ} (P : A → Type κ) (Q : A → Type μ) (r : Result E A)
    → ((a : A) → P a → Q a)
    → Then P r
    → Then Q r
Then-map P Q (ok a) f h = f a h
Then-map P Q (err e) f h = tt

pub Then-pair {ℓ κ μ} :
    {E : Type 0} {A : Type ℓ} (P : A → Type κ) (Q : A → Type μ) (r : Result E A)
    → Then P r
    → Then Q r
    → Then (λ a. P a × Q a) r
Then-pair P Q (ok a) h k = (h, k)
Then-pair P Q (err e) h k = tt

-- What follows a guard, once the guard has let it through.
pub Then-raise_if {ℓ κ} :
    {E : Type 0} {B : Type ℓ} (Q : B → Type κ) (b : Bool) (e : E) (k : Result E B)
    → (b ≡ false → Then Q k)
    → Then Q (raise_if b e >> k)
Then-raise_if Q true e k h = tt
Then-raise_if Q false e k h = h refl

-- What follows the reading of a value that may be missing.
pub Then-found {ℓ κ μ} :
    {E : Type 0} {A : Type ℓ} {B : Type κ} (Q : B → Type μ) (o : Option A) (e : E)
    (f : A → Result E B)
    → ((a : A) → o ≡ some a → Then Q (f a))
    → Then Q (or_raise o e >>= f)
Then-found Q none e f h = tt
Then-found Q (some a) e f h = h a refl
