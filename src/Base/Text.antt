-- ===== src/Base/Text.antt =====
-- Go strings as lists of code points (each string is taken to be valid UTF-8), with the functions of
-- package `strings` that the program calls. `TrimSpace` cuts what `unicode.IsSpace` accepts.
use Prim.Native.Nat.{ℕ}
use Prim.Native.Char.{code}
use Prim.Native.String.{String}
use mathlib.Core.Path.{◌≡◌, refl, ap, ◌∙◌}
use mathlib.Core.Logic.{◌↔◌}
use mathlib.Core.Bool.{Bool, true, false, ◌&&◌, ◌||◌}
use mathlib.Core.List.{List, [], ◌∷◌, ◌++◌}
use native.Mathlib.Omega.{arith}
use personal_assistant.Base.Tests.{nat_eq, nat_eq_iff, leb, if◌then◌else◌}
use personal_assistant.Base.Keys.{KeyEq}
use personal_assistant.Base.Lists.{All}

abbrev pub Text : Type 0
Text = List ℕ

-- A string literal.
abbrev pub lit : String → Text
lit String.[] = []
lit (String.◌∷◌ c rest) = code c ∷ lit rest

unfoldable pub text_eq : Text → Text → Bool
text_eq [] [] = true
text_eq [] (y ∷ ys) = false
text_eq (x ∷ xs) [] = false
text_eq (x ∷ xs) (y ∷ ys) = nat_eq x y && text_eq xs ys

pub text_eq_iff : (xs ys : Text) → (text_eq xs ys ≡ true) ↔ (xs ≡ ys)
unfolding text_eq
text_eq_iff [] [] = (λ q. refl, λ q. refl)
text_eq_iff [] (y ∷ ys) = (λ q. cc, λ q. cc)
text_eq_iff (x ∷ xs) [] = (λ q. cc, λ q. cc)
text_eq_iff (x ∷ xs) (y ∷ ys) = ground (arith, nat_eq_iff x y, text_eq_iff xs ys)

instance abbrev pub text_key : KeyEq Text
text_key = record { same = text_eq; same_iff = text_eq_iff }

-- unicode.IsSpace
unfoldable pub is_space : ℕ → Bool
is_space c =
    leb 9 c && leb c 13
    || nat_eq c 32
    || nat_eq c 0x85
    || nat_eq c 0xa0
    || nat_eq c 0x1680
    || leb 0x2000 c && leb c 0x200a
    || nat_eq c 0x2028
    || nat_eq c 0x2029
    || nat_eq c 0x202f
    || nat_eq c 0x205f
    || nat_eq c 0x3000

abbrev pub is_nil : Text → Bool
is_nil [] = true
is_nil (c ∷ cs) = false

unfoldable pub trim_left : Text → Text
trim_left [] = []
trim_left (c ∷ cs) = if is_space c then trim_left cs else c ∷ cs

unfoldable pub trim_right : Text → Text
trim_right [] = []
trim_right (c ∷ cs) = let rest = trim_right cs in if is_space c && is_nil rest then [] else c ∷ rest

-- strings.TrimSpace
unfoldable pub trim_space : Text → Text
trim_space t = trim_right (trim_left t)

-- strings.HasPrefix
unfoldable pub has_prefix : Text → Text → Bool
has_prefix t [] = true
has_prefix [] (p ∷ ps) = false
has_prefix (c ∷ cs) (p ∷ ps) = nat_eq c p && has_prefix cs ps

pub has_prefix-append : (ps t : Text) → has_prefix (ps ++ t) ps ≡ true
unfolding has_prefix
has_prefix-append [] t = refl
has_prefix-append (p ∷ ps) t = ground (arith, has_prefix-append ps t, nat_eq_iff p p)

-- No character is a space.
abbrev pub IsSolid : Text → Type 0
IsSolid = All (λ c. is_space c ≡ false)

trim_right-IsSolid : (t : Text) → IsSolid t → trim_right t ≡ t
unfolding trim_right
trim_right-IsSolid [] h = refl
trim_right-IsSolid (c ∷ cs) h = ground (arith, h.0, trim_right-IsSolid cs h.1)

trim_left-IsSolid : (t : Text) → IsSolid t → trim_left t ≡ t
unfolding trim_left
trim_left-IsSolid [] h = refl
trim_left-IsSolid (c ∷ cs) h = ground (arith, h.0)

pub trim_space-IsSolid : (t : Text) → IsSolid t → trim_space t ≡ t
unfolding trim_space
trim_space-IsSolid t h = ap trim_right (trim_left-IsSolid t h) ∙ trim_right-IsSolid t h

-- Trimming what is trimmed changes nothing.
abbrev pub starts_solid : Text → Bool
starts_solid [] = true
starts_solid (c ∷ cs) = if is_space c then false else true

trim_left_starts : (t : Text) → starts_solid (trim_left t) ≡ true
unfolding trim_left
trim_left_starts [] = refl
trim_left_starts (c ∷ cs) = ground (arith, trim_left_starts cs)

trim_left_of_starts : (t : Text) → starts_solid t ≡ true → trim_left t ≡ t
unfolding trim_left
trim_left_of_starts [] h = refl
trim_left_of_starts (c ∷ cs) h = ground (arith, h)

starts-trim_right : (t : Text) → starts_solid t ≡ true → starts_solid (trim_right t) ≡ true
unfolding trim_right
starts-trim_right [] h = refl
starts-trim_right (c ∷ cs) h = ground (arith, h)

trim_right_idem : (t : Text) → trim_right (trim_right t) ≡ trim_right t
unfolding trim_right
trim_right_idem [] = refl
trim_right_idem (c ∷ cs) = ground (arith, trim_right_idem cs)

pub trim_space_idem : (t : Text) → trim_space (trim_space t) ≡ trim_space t
unfolding trim_space
trim_space_idem t =
    ap trim_right (trim_left_of_starts _ (starts-trim_right _ (trim_left_starts t)))
    ∙ trim_right_idem (trim_left t)

-- A text that is left by trimming starts with a character that is no space.
pub trim_space_starts : (t : Text) → starts_solid (trim_space t) ≡ true
unfolding trim_space
trim_space_starts t = starts-trim_right _ (trim_left_starts t)
