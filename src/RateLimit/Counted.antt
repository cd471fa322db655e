-- ===== src/RateLimit/Counted.antt =====
-- How many times of a list lie in a window.
use personal_assistant.Base.{
  ℕ, suc, ltb, leb, ◌≡◌, refl, ◌∙◌, ◌+◌, ◌≤◌, Bool, true, false, ◌&&◌, List, [], ◌∷◌, length, All,
  arith, if◌then◌else◌, Bool-cases, inl, inr,
}
use personal_assistant.RateLimit.Zset.{num, keep_if, above, minus}

-- The time is less than a window ago.
abbrev pub alive : ℕ → ℕ → ℕ → Bool
alive window now x = ltb now (x + window)

-- The time is among the last `window` up to `top`.
abbrev pub in_window : ℕ → ℕ → ℕ → Bool
in_window window top x = leb x top && ltb top (x + window)

above-minus : (now window x : ℕ) → above (minus now window) x ≡ alive window now x
above-minus now window x = ground arith

pub num_mono :
    (P : ℕ → Type 0) (f g : ℕ → Bool)
    → ((x : ℕ) → P x → f x ≡ true → g x ≡ true)
    → (xs : List ℕ) → All P xs
    → num f xs ≤ num g xs
unfolding num
num_mono P f g h [] k = omega arith
num_mono P f g h (x ∷ xs) k = ground (arith, num_mono P f g h xs k.1, h x k.0)

pub num_none :
    (P : ℕ → Type 0) (f : ℕ → Bool)
    → ((x : ℕ) → P x → f x ≡ false)
    → (xs : List ℕ) → All P xs
    → num f xs ≡ 0
unfolding num
num_none P f h [] k = refl
num_none P f h (x ∷ xs) k = ground (arith, num_none P f h xs k.1, h x k.0)

pub length-keep_if : (f : ℕ → Bool) (xs : List ℕ) → length (keep_if f xs) ≡ num f xs
unfolding num keep_if
length-keep_if f [] = refl
length-keep_if f (x ∷ xs) = ground (arith, length-keep_if f xs)

num-keep_if :
    (f g : ℕ → Bool)
    → ((x : ℕ) → f x ≡ true → g x ≡ true)
    → (xs : List ℕ) → num f (keep_if g xs) ≡ num f xs
unfolding num keep_if
num-keep_if f g h [] = refl
num-keep_if f g h (x ∷ xs) = elim (Bool-cases (g x)) [
  | inl q ↦ rw q (ground (arith, num-keep_if f g h xs))
  | inr q ↦ rw q (ground (arith, num-keep_if f g h xs, h x, q))
]

pub num-cons :
    (f : ℕ → Bool) (x : ℕ) (xs : List ℕ)
    → num f (x ∷ xs) ≡ (if f x then suc (num f xs) else num f xs)
unfolding num
num-cons f x xs = refl

num-same : {f g : ℕ → Bool} → ((x : ℕ) → f x ≡ g x) → (xs : List ℕ) → num f xs ≡ num g xs
unfolding num
num-same h [] = refl
num-same h (x ∷ xs) = ground (arith, num-same h xs, h x)

-- What is older than the window is not among what is alive later.
pub num-alive-keep_if :
    (window now later : ℕ) (xs : List ℕ)
    → now ≤ later
    → num (alive window later) (keep_if (above (minus now window)) xs) ≡ num (alive window later) xs
num-alive-keep_if window now later xs h =
    num-keep_if (alive window later) (above (minus now window)) (λ x q. still x q) xs
  where
    still : (x : ℕ) → alive window later x ≡ true → above (minus now window) x ≡ true
    still x q = above-minus now window x ∙ ground (arith, q, h)

pub length-alive :
    (window now : ℕ) (xs : List ℕ)
    → length (keep_if (above (minus now window)) xs) ≡ num (alive window now) xs
length-alive window now xs =
    length-keep_if (above (minus now window)) xs ∙ num-same (above-minus now window) xs
