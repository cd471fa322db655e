-- ===== src/Base/Decimal.antt =====
-- fmt's `%d` of an unsigned number, and that no two numbers print alike.
use Prim.Native.Nat.{ℕ, zero, suc, ◌+◌, ◌-◌, ◌*◌, ◌/◌, ◌%◌, ◌<◌, ◌≤◌}
use mathlib.Core.Path.{◌≡◌, refl, sym, ap, ◌∙◌}
use mathlib.Core.Logic.{inl, inr}
use mathlib.Core.Bool.{false}
use mathlib.Core.List.{[], ◌∷◌, ◌++◌}
use native.Mathlib.Omega.{arith}
use personal_assistant.Base.Tests.{ltb, if◌then◌else◌, Bool-cases}
use personal_assistant.Base.Lists.{All, All-map}
use personal_assistant.Base.Text.{Text, is_space, IsSolid}

-- The digits of a number below `fuel`; `suc n` is enough fuel for `n`.
digits : ℕ → ℕ → Text
digits zero n = []
digits (suc fuel) n =
    let front = digits fuel (n / 10) in
    if ltb n 10 then (48 + n) ∷ [] else front ++ (48 + n % 10) ∷ []

unfoldable pub show_nat : ℕ → Text
unfolding digits
show_nat n = digits (suc n) n

read_from : ℕ → Text → ℕ
read_from acc [] = acc
read_from acc (c ∷ cs) = read_from (acc * 10 + (c - 48)) cs

read_from-append :
    (acc : ℕ) (xs : Text) (c : ℕ) → read_from acc (xs ++ c ∷ []) ≡ read_from acc xs * 10 + (c - 48)
unfolding read_from
read_from-append acc [] c = refl
read_from-append acc (x ∷ xs) c = read_from-append (acc * 10 + (x - 48)) xs c

read-digits : (fuel n : ℕ) → n < fuel → read_from 0 (digits fuel n) ≡ n
unfolding digits read_from
read-digits zero n h = absurd (omega arith)
read-digits (suc fuel) n h =
    ground
      (arith, read-digits fuel (n / 10), read_from-append 0 (digits fuel (n / 10)) (48 + n % 10))

pub show_nat-injective : (m n : ℕ) → show_nat m ≡ show_nat n → m ≡ n
unfolding show_nat
show_nat-injective m n q =
    sym (read-digits (suc m) m (omega arith))
    ∙ (ap (read_from 0) q ∙ read-digits (suc n) n (omega arith))

abbrev pub IsDigit : ℕ → Type 0
IsDigit c = (48 ≤ c) × (c ≤ 57)

All-snoc : (P : ℕ → Type 0) (xs : Text) (c : ℕ) → All P xs → P c → All P (xs ++ c ∷ [])
All-snoc P [] c h p = (p, tt)
All-snoc P (x ∷ xs) c h p = (h.0, All-snoc P xs c h.1 p)

digits-All : (fuel n : ℕ) → All IsDigit (digits fuel n)
unfolding digits
digits-All zero n = tt
digits-All (suc fuel) n = elim (Bool-cases (ltb n 10)) [
  | inl q ↦ rw q (ground arith, tt)
  | inr q ↦ rw q (
      All-snoc IsDigit (digits fuel (n / 10)) (48 + n % 10) (digits-All fuel (n / 10))
        (omega arith))
]

pub show_nat-All : (n : ℕ) → All IsDigit (show_nat n)
unfolding show_nat
show_nat-All n = digits-All (suc n) n

digit_solid : (c : ℕ) → IsDigit c → is_space c ≡ false
unfolding is_space
digit_solid c h = ground arith

pub show_nat-IsSolid : (n : ℕ) → IsSolid (show_nat n)
show_nat-IsSolid n = All-map digit_solid (show_nat n) (show_nat-All n)
