-- ===== src/Base/Split.antt =====
-- Splitting and joining texts, as Go's package `strings` does, and what trimming does to a length.
use Prim.Native.Nat.{ℕ, ◌≤◌}
use mathlib.Core.Bool.{Bool, false, ◌&&◌, ◌||◌}
use mathlib.Core.List.{List, [], ◌∷◌, ◌++◌}
use native.Mathlib.Omega.{arith}
use personal_assistant.Base.Tests.{if◌then◌else◌, nat_eq}
use personal_assistant.Base.Lists.{length}
use personal_assistant.Base.Text.{Text, is_nil, trim_left, trim_right, trim_space}

abbrev pub onto_first : ℕ → List Text → List Text
onto_first c [] = (c ∷ []) ∷ []
onto_first c (word ∷ words) = (c ∷ word) ∷ words

-- strings.Split(text, string(mark))
unfoldable pub split_on : ℕ → Text → List Text
split_on mark [] = [] ∷ []
split_on mark (c ∷ cs) =
    let rest = split_on mark cs in if nat_eq c mark then [] ∷ rest else onto_first c rest

-- strings.Join(texts, separator)
unfoldable pub join_with : Text → List Text → Text
join_with separator [] = []
join_with separator (text ∷ []) = text
join_with separator (text ∷ next ∷ texts) =
    text ++ (separator ++ join_with separator (next ∷ texts))

-- strings.Contains(text, string(mark))
unfoldable pub contains : ℕ → Text → Bool
contains mark [] = false
contains mark (c ∷ cs) = nat_eq c mark || contains mark cs

-- strings.ReplaceAll(text, string(mark), "")
unfoldable pub remove_all : ℕ → Text → Text
remove_all mark [] = []
remove_all mark (c ∷ cs) = let rest = remove_all mark cs in if nat_eq c mark then rest else c ∷ rest

-- strings.TrimRight(text, " \t")
unfoldable pub trim_blanks : Text → Text
trim_blanks [] = []
trim_blanks (c ∷ cs) =
    let rest = trim_blanks cs in if (nat_eq c 32 || nat_eq c 9) && is_nil rest then [] else c ∷ rest

length-trim_left : (text : Text) → length (trim_left text) ≤ length text
unfolding trim_left
length-trim_left [] = omega arith
length-trim_left (c ∷ cs) = ground (arith, length-trim_left cs)

length-trim_right : (text : Text) → length (trim_right text) ≤ length text
unfolding trim_right
length-trim_right [] = omega arith
length-trim_right (c ∷ cs) = ground (arith, length-trim_right cs)

pub length-trim_space : (text : Text) → length (trim_space text) ≤ length text
unfolding trim_space
length-trim_space text = omega (arith, length-trim_left text, length-trim_right (trim_left text))

pub length-trim_blanks : (text : Text) → length (trim_blanks text) ≤ length text
unfolding trim_blanks
length-trim_blanks [] = omega arith
length-trim_blanks (c ∷ cs) = ground (arith, length-trim_blanks cs)
