-- ===== src/RateLimit/Zset.antt =====
-- What the sliding window's script relies on in Redis: the commands on one sorted set, with what their
-- documentation says of the scores, and the expiry of the key.
use personal_assistant.Base.{
  ℕ, nat_eq, ◌≡◌, ◌≤◌, ◌<◌, ◌+◌, ◌-◌, suc, leb, ◌⊎◌, Bool, false, List, [], ◌∷◌, length, Option,
  none, some, if◌then◌else◌,
}
use personal_assistant.Base.Int.{ℤ, pos, negsuc, ltb_ℤ}

-- How many numbers of the list pass the test.
unfoldable pub num : (ℕ → Bool) → List ℕ → ℕ
num test [] = 0
num test (x ∷ xs) = if test x then suc (num test xs) else num test xs

unfoldable pub keep_if : (ℕ → Bool) → List ℕ → List ℕ
keep_if test [] = []
keep_if test (x ∷ xs) = let rest = keep_if test xs in if test x then x ∷ rest else rest

-- The score is larger than the bound.
abbrev pub above : ℤ → ℕ → Bool
above bound score = ltb_ℤ bound (pos score)

abbrev pub minus : ℕ → ℕ → ℤ
minus a b = if leb b a then pos (a - b) else negsuc (b - a - 1)

-- One key that holds a sorted set. Times are in milliseconds, and members are numbered.
pub record Zset (R : Type 0) : Type 0 where
  -- The key as it is found at a time: gone if its time has passed.
  pub found_at : ℕ → R → R
  pub zremrangebyscore : ℤ → R → R
  pub zcard : R → ℕ
  pub zrange_first : R → Option ℕ
  pub zadd : ℕ → ℕ → R → R
  pub pexpire : ℕ → ℕ → R → R

-- What the commands do, seen at the scores, the members and the time at which the key expires.
pub record ZsetLaws (R : Type 0) (z : Zset R) : Type 0 where
  pub scores : R → List ℕ
  pub is_member : ℕ → R → Bool
  pub deadline : R → ℕ
  pub found_at_lem :
      (now : ℕ) (s : R)
      → (scores (z.found_at now s) ≡ scores s)
        ⊎ ((scores (z.found_at now s) ≡ []) × (deadline s ≤ now))
  pub zremrangebyscore_lem :
      (bound : ℤ) (s : R) → scores (z.zremrangebyscore bound s) ≡ keep_if (above bound) (scores s)
  pub zcard_lem : (s : R) → z.zcard s ≡ length (scores s)
  pub zrange_none : (s : R) → z.zrange_first s ≡ none → scores s ≡ []
  pub zrange_some : (s : R) (x : ℕ) → z.zrange_first s ≡ some x → 0 < num (nat_eq x) (scores s)
  pub zadd_lem :
      (score member : ℕ) (s : R) (test : ℕ → Bool)
      → is_member member s ≡ false
      → num test (scores (z.zadd score member s)) ≡ num test (score ∷ scores s)
  pub pexpire_scores : (now window : ℕ) (s : R) → scores (z.pexpire now window s) ≡ scores s
  pub pexpire_deadline : (now window : ℕ) (s : R) → deadline (z.pexpire now window s) ≡ now + window
