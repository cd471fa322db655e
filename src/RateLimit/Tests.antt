-- ===== src/RateLimit/Tests.antt =====
-- Examples for the rate limiter, over a sorted set in memory, which meets the laws that the sliding
-- window relies on.
use personal_assistant.Base.{
  ℕ, ltb, leb, nat_eq, ◌≡◌, refl, ap, ◌+◌, ◌≤◌, ◌<◌, ◌⊎◌, Bool, true, false, ◌||◌, List, [], ◌∷◌,
  length, Option, none, some, arith, if◌then◌else◌, Bool-cases, inl, inr, subst, by_test,
}
use personal_assistant.Base.Int.{pos}
use personal_assistant.RateLimit.Sliding.{
  Result, SlidingWindowLimiter, Request, reply_lost, ask, allow, is_allowed, admitted, AreFresh,
  window_ms, trimmed, lua_sliding_window, read_result,
}
use personal_assistant.RateLimit.Counted.{in_window}
use personal_assistant.RateLimit.Bound.{num-admitted}
use personal_assistant.RateLimit.Retry.{retry_is_allowed}
use personal_assistant.RateLimit.Zset.{Zset, ZsetLaws, num, keep_if, above}

record Entry : Type 0 where
  score : ℕ
  member : ℕ

record Key : Type 0 where
  entries : List Entry
  expires_at : ℕ

abbrev no_key : Key
no_key = record { entries = []; expires_at = 0 }

abbrev scores_of : List Entry → List ℕ
scores_of [] = []
scores_of (e ∷ es) = e.score ∷ scores_of es

abbrev has_member : ℕ → List Entry → Bool
has_member member [] = false
has_member member (e ∷ es) = nat_eq e.member member || has_member member es

without_member : ℕ → List Entry → List Entry
without_member member [] = []
without_member member (e ∷ es) =
    let rest = without_member member es in if nat_eq e.member member then rest else e ∷ rest

keep_entries : (ℕ → Bool) → List Entry → List Entry
keep_entries test [] = []
keep_entries test (e ∷ es) =
    let rest = keep_entries test es in if test e.score then e ∷ rest else rest

least : ℕ → List ℕ → ℕ
least x [] = x
least x (y ∷ ys) = least (if ltb y x then y else x) ys

abbrev lowest : List ℕ → Option ℕ
lowest [] = none
lowest (x ∷ xs) = some (least x xs)

in_memory : Zset Key
unfolding without_member keep_entries least
in_memory = record {
  found_at = λ now k. if leb k.expires_at now then no_key else k;
  zremrangebyscore = λ bound k. record {
    entries = keep_entries (above bound) k.entries;
    expires_at = k.expires_at;
  };
  zcard = λ k. length (scores_of k.entries);
  zrange_first = λ k. lowest (scores_of k.entries);
  zadd = λ score member k. record {
    entries = record { score = score; member = member } ∷ without_member member k.entries;
    expires_at = k.expires_at;
  };
  pexpire = λ now window k. record { entries = k.entries; expires_at = now + window };
}

scores-keep_entries :
    (test : ℕ → Bool) (es : List Entry)
    → scores_of (keep_entries test es) ≡ keep_if test (scores_of es)
unfolding keep_entries keep_if
scores-keep_entries test [] = refl
scores-keep_entries test (e ∷ es) = grind (arith, scores-keep_entries test es)

without-nonmember :
    (member : ℕ) (es : List Entry) → has_member member es ≡ false → without_member member es ≡ es
unfolding without_member
without-nonmember member [] q = refl
without-nonmember member (e ∷ es) q = grind (arith, without-nonmember member es, q)

lowest-none : (xs : List ℕ) → lowest xs ≡ none → xs ≡ []
lowest-none [] q = refl
lowest-none (x ∷ xs) q = cc

more_num : (test : ℕ → Bool) (x : ℕ) (xs : List ℕ) → 0 < num test xs → 0 < num test (x ∷ xs)
unfolding num
more_num test x xs h = ground (arith, h)

num_between :
    (test : ℕ → Bool) (x y : ℕ) (ys : List ℕ) → 0 < num test (x ∷ ys) → 0 < num test (x ∷ y ∷ ys)
unfolding num
num_between test x y ys h = ground (arith, h)

num-least : (x : ℕ) (xs : List ℕ) → 0 < num (nat_eq (least x xs)) (x ∷ xs)
unfolding num least
num-least x [] = ground arith
num-least x (y ∷ ys) =
    by_test (λ m. 0 < num (nat_eq (least m ys)) (x ∷ y ∷ ys)) (ltb y x) y x
      (λ _. more_num (nat_eq (least y ys)) x (y ∷ ys) (num-least y ys))
      (λ _. num_between (nat_eq (least x ys)) x y ys (num-least x ys))

abbrev from_some : Option ℕ → ℕ
from_some none = 0
from_some (some n) = n

lowest-some : (xs : List ℕ) (x : ℕ) → lowest xs ≡ some x → 0 < num (nat_eq x) xs
lowest-some [] x q = cc
lowest-some (y ∷ ys) x q =
    subst (λ n. 0 < num (nat_eq n) (y ∷ ys)) (ap from_some q) (num-least y ys)

found_or_gone :
    (now : ℕ) (k : Key)
    → (scores_of (if leb k.expires_at now then no_key else k).entries ≡ scores_of k.entries)
      ⊎ ((scores_of (if leb k.expires_at now then no_key else k).entries ≡ [])
          × (k.expires_at ≤ now))
found_or_gone now k = elim (Bool-cases (leb k.expires_at now)) [
  | inl q ↦ inr (ap (λ b. scores_of (if b then no_key else k).entries) q, within k.expires_at q)
  | inr q ↦ inl (ap (λ b. scores_of (if b then no_key else k).entries) q)
]
  where
    within : (n : ℕ) → leb n now ≡ true → n ≤ now
    within n q = ground (arith, q)

zadd_counts :
    (score member : ℕ) (es : List Entry) (test : ℕ → Bool)
    → has_member member es ≡ false
    → num test (score ∷ scores_of (without_member member es)) ≡ num test (score ∷ scores_of es)
zadd_counts score member es test q =
    ap (λ xs. num test (score ∷ scores_of xs)) (without-nonmember member es q)

in_memory_laws : ZsetLaws Key in_memory
unfolding in_memory
in_memory_laws = record {
  scores = λ k. scores_of k.entries;
  is_member = λ member k. has_member member k.entries;
  deadline = λ k. k.expires_at;
  found_at_lem = found_or_gone;
  zremrangebyscore_lem = λ bound k. scores-keep_entries (above bound) k.entries;
  zcard_lem = λ k. refl;
  zrange_none = λ k. lowest-none (scores_of k.entries);
  zrange_some = λ k. lowest-some (scores_of k.entries);
  zadd_lem = λ score member k test q. zadd_counts score member k.entries test q;
  pexpire_scores = λ now window k. refl;
  pexpire_deadline = λ now window k. refl;
}

abbrev limiter : SlidingWindowLimiter
limiter = record { limit = pos 2; window = pos 1000000000 }

-- Two requests, one that comes too early, one whose answer is lost, and a late one.
abbrev requests : List Request
requests =
    ask 5000 1
    ∷ ask 5400 2
    ∷ ask 5900 3
    ∷ record { now = 6100; member = 4; delivery = reply_lost }
    ∷ ask 6500 5
    ∷ []

let_through : admitted in_memory limiter [] no_key requests ≡ 6500 ∷ 5400 ∷ 5000 ∷ []
unfolding in_memory admitted allow lua_sliding_window read_result trimmed without_member
    keep_entries least
let_through = refl

fresh_members : AreFresh in_memory in_memory_laws limiter no_key requests
unfolding in_memory in_memory_laws allow lua_sliding_window read_result trimmed without_member
    keep_entries least
fresh_members = (refl, (refl, (refl, (refl, (refl, tt)))))

num-admitted_example :
    num (in_window (window_ms limiter) 6000) (admitted in_memory limiter [] no_key requests) ≤ 2
num-admitted_example =
    num-admitted in_memory in_memory_laws limiter no_key requests 6000
      (omega arith, (omega arith, (omega arith, (omega arith, (omega arith, tt))))) fresh_members

abbrev full_key : Key
full_key = record {
  entries = record { score = 5400; member = 2 } ∷ record { score = 5000; member = 1 } ∷ [];
  expires_at = 6400;
}

abbrev refusal : Result
refusal = record { allowed = false; current = 2; limit = pos 2; remaining = 0; retry_after = 100 }

refused_at : (allow in_memory limiter (ask 5900 3) full_key).0 ≡ some refusal
unfolding in_memory allow lua_sliding_window read_result trimmed keep_entries least
refused_at = refl

retry_is_allowed_example :
    is_allowed in_memory
      (allow in_memory limiter (ask 6000 4) (allow in_memory limiter (ask 5900 3) full_key).1).0
    ≡ true
retry_is_allowed_example =
    retry_is_allowed in_memory in_memory_laws limiter 5900 3 6000 4 full_key refusal (omega arith)
      refused_at refl (omega arith) (omega arith)
