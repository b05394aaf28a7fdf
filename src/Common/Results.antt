-- ===== src/Common/Results.antt =====
-- What a call of the source comes to: a value, an error value, or a panic of the running task.
use mathlib.Core.Bool.{Bool, true, false}
use mathlib.Core.Path.{◌≡◌, refl}
use mathlib.Core.Option.{Option, none, some}

pub data Outcome {ℓ κ} (E : Type ℓ) (A : Type κ) : Type (ℓ ⊔ κ) where
  ok : A → Outcome E A
  err : E → Outcome E A
  panic : Outcome E A

-- `abbrev`, so that `ok a >>= f` computes wherever it stands.
infixl 5 ◌>>=◌
abbrev pub ◌>>=◌ {ℓ κ μ} :
    {E : Type ℓ} {A : Type κ} {B : Type μ} → Outcome E A → (A → Outcome E B) → Outcome E B
ok a >>= f = f a
err e >>= f = err e
panic >>= f = panic

-- An operator of a library that panics where it gives no value.
abbrev pub or_panic {ℓ κ} : {E : Type ℓ} {A : Type κ} → Option A → Outcome E A
or_panic none = panic
or_panic (some a) = ok a

infixl 5 ◌>>◌
abbrev pub ◌>>◌ {ℓ κ} : {E : Type ℓ} {B : Type κ} → Outcome E (Unit {0}) → Outcome E B → Outcome E B
m >> k = m >>= λ _. k

-- `if c { return Err(e); }`
abbrev pub fail_if {ℓ} : {E : Type ℓ} → Bool → E → Outcome E (Unit {0})
fail_if true e = err e
fail_if false e = ok tt

-- The call returns a value, and the value satisfies the predicate.
abbrev pub Returns {ℓ κ} : {E : Type ℓ} {A : Type κ} → Outcome E A → (A → Type 0) → Type 0
Returns (ok a) P = P a
Returns (err e) P = ⊥
Returns panic P = ⊥

pub Returns-elim {ℓ κ} :
    {E : Type ℓ} {A : Type κ} {P : A → Type 0} (r : Outcome E A)
    → Returns r P
    → (a : A) × (r ≡ ok a) × P a
Returns-elim (ok a) p = (a, refl, p)
Returns-elim (err e) p = elim p [ ]
Returns-elim panic p = elim p [ ]

pub Returns-bind {ℓ κ μ} :
    {E : Type ℓ} {A : Type κ} {B : Type μ} (P : A → Type 0) (Q : B → Type 0) (r : Outcome E A)
    (f : A → Outcome E B)
    → Returns r P
    → ((a : A) → P a → Returns (f a) Q)
    → Returns (r >>= f) Q
Returns-bind P Q (ok a) f p k = k a p
Returns-bind P Q (err e) f p k = elim p [ ]
Returns-bind P Q panic f p k = elim p [ ]

-- A chain of calls that ends well has ended well at each call.
pub bind-eq-ok {ℓ κ μ} :
    {E : Type ℓ} {A : Type κ} {B : Type μ} (r : Outcome E A) (f : A → Outcome E B) {b : B}
    → (r >>= f) ≡ ok b
    → (a : A) × (r ≡ ok a) × (f a ≡ ok b)
bind-eq-ok (ok a) f h = (a, refl, h)
bind-eq-ok (err e) f h = cc
bind-eq-ok panic f h = cc
