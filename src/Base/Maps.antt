-- ===== src/Base/Maps.antt =====
-- A Go map as an association list with at most one entry for a key that is written through `put`.
use Prim.Native.Nat.{suc, ◌≤◌}
use mathlib.Core.Path.{◌≡◌, refl, subst}
use mathlib.Core.Option.{Option, none, some}
use mathlib.Core.Logic.{inl, inr}
use mathlib.Core.List.{List, [], ◌∷◌}
use native.Mathlib.Omega.{arith}
use personal_assistant.Base.Tests.{if◌then◌else◌, Bool-cases}
use personal_assistant.Base.Keys.{KeyEq, ◌==◌}
use personal_assistant.Base.Lists.{length, All}

abbrev pub Map {ℓ κ} : Type ℓ → Type κ → Type (ℓ ⊔ κ)
Map K V = List (K × V)

module _ {ℓ κ} {K : Type ℓ} {V : Type κ} ⦃e : KeyEq K⦄ where
  -- m[key]; `none` is a missing key.
  unfoldable pub get : K → Map K V → Option V
  get key [] = none
  get key ((old, value) ∷ rest) = if old == key then some value else get key rest

  -- m[key] = value
  unfoldable pub put : K → V → Map K V → Map K V
  put key value [] = (key, value) ∷ []
  put key value ((old, was) ∷ rest) =
      if old == key then (old, value) ∷ rest else (old, was) ∷ put key value rest

  -- delete(m, key)
  unfoldable pub del : K → Map K V → Map K V
  del key [] = []
  del key ((old, was) ∷ rest) =
      let others = del key rest in if old == key then others else (old, was) ∷ others

  pub get-put :
      (key asked : K) (value : V) (m : Map K V)
      → get asked (put key value m) ≡ (if key == asked then some value else get asked m)
  unfolding get put
  get-put key asked value [] = refl
  get-put key asked value ((old, was) ∷ rest) = ground (
    arith,
    get-put key asked value rest,
    e.same_iff old asked,
    e.same_iff old key,
    e.same_iff key asked,
  )

  pub get-del :
      (key asked : K) (m : Map K V)
      → get asked (del key m) ≡ (if key == asked then none else get asked m)
  unfolding get del
  get-del key asked [] = ground arith
  get-del key asked ((old, was) ∷ rest) = ground (
    arith,
    get-del key asked rest,
    e.same_iff old asked,
    e.same_iff old key,
    e.same_iff key asked,
  )

  pub length-put : (k : K) (v : V) (m : Map K V) → length (put k v m) ≤ suc (length m)
  unfolding put
  length-put k v [] = omega arith
  length-put k v ((j, w) ∷ m) = ground (arith, length-put k v m)

  pub length-del : (k : K) (m : Map K V) → length (del k m) ≤ length m
  unfolding del
  length-del k [] = omega arith
  length-del k ((j, w) ∷ m) = ground (arith, length-del k m)

  pub get-put_self : (k : K) (v : V) (m : Map K V) → get k (put k v m) ≡ some v
  get-put_self k v m = ground (arith, get-put k k v m, e.same_iff k k)

  -- The values of a map in the order of the model; Go leaves the order of a range open.
  unfoldable pub values : Map K V → List V
  values [] = []
  values ((k, v) ∷ m) = v ∷ values m

  pub length-values : (m : Map K V) → length (values m) ≡ length m
  unfolding values
  length-values [] = refl
  length-values ((k, v) ∷ m) = omega (arith, length-values m)

  -- No key stands twice.
  abbrev pub Unique : Map K V → Type κ
  Unique [] = Unit
  Unique ((k, v) ∷ m) = (get k m ≡ none) × Unique m

  pub put-Unique : (k : K) (v : V) (m : Map K V) → Unique m → Unique (put k v m)
  unfolding put get
  put-Unique k v [] u = (refl, tt)
  put-Unique k v ((j, w) ∷ m) u =
      ground (arith, put-Unique k v m u.1, get-put k j v m, e.same_iff j k, e.same_iff k j)

  pub del-Unique : (k : K) (m : Map K V) → Unique m → Unique (del k m)
  unfolding del
  del-Unique k [] u = u
  del-Unique k ((j, w) ∷ m) u = ground (arith, del-Unique k m u.1, get-del k j m)

  pub get-head : (k : K) (v : V) (m : Map K V) → get k ((k, v) ∷ m) ≡ some v
  unfolding get
  get-head k v m = ground (arith, e.same_iff k k)

  pub get-tail :
      (k j : K) (v w : V) (m : Map K V)
      → get k m ≡ none
      → get j m ≡ some w
      → get j ((k, v) ∷ m) ≡ some w
  unfolding get
  get-tail k j v w m n q = ground (arith, n, q, e.same_iff k j)

  -- In a map with unique keys every value that a range yields is found under its key.
  pub values-All {μ} :
      (P : V → Type μ) (m : Map K V)
      → Unique m
      → ((k : K) (v : V) → get k m ≡ some v → P v)
      → All P (values m)
  unfolding values
  values-All P [] u h = tt
  values-All P ((k, v) ∷ m) u h =
      (h k v (get-head k v m), values-All P m u.1 (λ j w q. h j w (get-tail k j v w m u.0 q)))

  pub All-values {μ} :
      (P : V → Type μ) (m : Map K V) (j : K) (v : V) → get j m ≡ some v → All P (values m) → P v
  unfolding values get
  All-values P [] j v q h = absurd (cc)
  All-values P ((k, w) ∷ m) j v q h = elim (Bool-cases (k == j)) [
    | inl p ↦ let same : w ≡ v = ground (arith, p, q) in subst P same h.0
    | inr p ↦ All-values P m j v (rw p at q) h.1
  ]

  pub length-put_present :
      (k : K) (v w : V) (m : Map K V) → get k m ≡ some w → length (put k v m) ≡ length m
  unfolding put get
  length-put_present k v w [] q = absurd (cc)
  length-put_present k v w ((j, x) ∷ m) q = ground (arith, q, length-put_present k v w m)
