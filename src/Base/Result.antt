-- ===== src/Base/Result.antt =====
-- A Go result `(value, error)` that is a value or an error.
use mathlib.Core.Path.{◌≡◌, refl}

pub data Result {ℓ κ} (E : Type ℓ) (A : Type κ) : Type (ℓ ⊔ κ) where
  ok : A → Result E A
  err : E → Result E A

infixl 5 ◌>>=◌
abbrev pub ◌>>=◌ {ℓ κ μ} :
    {E : Type ℓ} {A : Type κ} {B : Type μ} → Result E A → (A → Result E B) → Result E B
ok value >>= next = next value
err problem >>= next = err problem

infixl 5 ◌>>◌
abbrev pub ◌>>◌ {ℓ κ} : {E : Type ℓ} {B : Type κ} → Result E (Unit {0}) → Result E B → Result E B
check >> next = check >>= λ _. next

-- What holds of the value, if there is one.
abbrev pub Yields {ℓ κ} : {E : Type ℓ} {A : Type κ} → Result E A → (A → Type 0) → Type 0
Yields (ok value) P = P value
Yields (err problem) P = Unit

pub yields_then {ℓ κ μ} :
    {E : Type ℓ} {A : Type κ} {B : Type μ} (m : Result E A) (f : A → Result E B) (Q : A → Type 0)
    (P : B → Type 0)
    → Yields m Q
    → ((a : A) → Q a → Yields (f a) P)
    → Yields (m >>= f) P
yields_then (ok a) f Q P h next = next a h
yields_then (err problem) f Q P h next = tt

pub yields_skip {ℓ κ μ} :
    {E : Type ℓ} {A : Type κ} {B : Type μ} (m : Result E A) (f : A → Result E B) (P : B → Type 0)
    → ((a : A) → Yields (f a) P)
    → Yields (m >>= f) P
yields_skip (ok a) f P next = next a
yields_skip (err problem) f P next = tt

pub yields_found {ℓ κ μ} :
    {E : Type ℓ} {A : Type κ} {B : Type μ} (m : Result E A) (f : A → Result E B) (P : B → Type 0)
    → ((a : A) → m ≡ ok a → Yields (f a) P)
    → Yields (m >>= f) P
yields_found (ok a) f P next = next a refl
yields_found (err problem) f P next = tt
