-- ===== src/Base/Keys.antt =====
-- Types whose values Go compares with `==`.
use Prim.Native.Nat.{ℕ}
use Prim.Native.String.{String}
use mathlib.Core.Path.{◌≡◌, refl}
use mathlib.Core.Logic.{◌↔◌}
use mathlib.Core.Bool.{Bool, true}
use text.Mathlib.Text.{◌==◌ as text_same}
use text.Mathlib.TextEquality.{eq_iff}
use personal_assistant.Base.Tests.{nat_eq, nat_eq_iff}

-- A type of map keys, with the test that Go's map uses.
pub record KeyEq {ℓ} (K : Type ℓ) : Type ℓ where
  pub same : (x y : K) → Bool
  pub same_iff : (x y : K) → (same x y ≡ true) ↔ (x ≡ y)

module _ {ℓ} {K : Type ℓ} ⦃k : KeyEq K⦄ where
  infix 50 ◌==◌
  abbrev pub ◌==◌ : (x y : K) → Bool
  x == y = k.same x y

  pub ==_self : (x : K) → (x == x) ≡ true
  ==_self x = (k.same_iff x x).1 refl

instance abbrev pub string_key : KeyEq String
string_key = record { same = text_same; same_iff = eq_iff }

instance abbrev pub nat_key : KeyEq ℕ
nat_key = record { same = nat_eq; same_iff = nat_eq_iff }
