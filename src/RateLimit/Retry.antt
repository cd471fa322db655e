-- ===== src/RateLimit/Retry.antt =====
-- sliding_window.go: what the time to wait is good for.
use personal_assistant.Base.{
  ℕ, nat_eq, ◌≡◌, refl, ap, subst, ◌∙◌, ◌+◌, ◌-◌, ◌≤◌, ◌<◌, ◌⊎◌, Bool, true, false, List, [], ◌∷◌,
  length, Option, none, some, arith, by_test, Bool-cases, Option-cases, nat_eq_iff, inl, inr,
}
use personal_assistant.Base.Int.{ℤ, pos, negsuc, leb_ℤ, pos_part}
use personal_assistant.RateLimit.Zset.{Zset, ZsetLaws, num, minus}
use personal_assistant.RateLimit.Sliding.{
  Result, SlidingWindowLimiter, window_ms, retry_after_ms, read_result, trimmed, lua_sliding_window,
  allow, is_allowed, ask,
}
use personal_assistant.RateLimit.Counted.{alive, length-alive}

num-length : (f : ℕ → Bool) (xs : List ℕ) → num f xs ≤ length xs
unfolding num
num-length f [] = omega arith
num-length f (x ∷ xs) = ground (arith, num-length f xs)

num-nil : (f : ℕ → Bool) → num f [] ≡ 0
unfolding num
num-nil f = refl

-- A list with an element that fails the test has more elements than pass it.
num-short :
    (f : ℕ → Bool) (x : ℕ) (xs : List ℕ)
    → 0 < num (nat_eq x) xs
    → f x ≡ false
    → num f xs < length xs
unfolding num
num-short f x [] h q = absurd (omega (arith, h))
num-short f x (y ∷ ys) h q = elim (Bool-cases (nat_eq x y)) [
  | inl e ↦ ground (arith, num-length f ys, ap f ((nat_eq_iff x y).0 e), q)
  | inr e ↦ ground (arith, num-short f x ys, h, e, q)
]

abbrev or_else : Result → Option Result → Result
or_else other none = other
or_else other (some result) = result

module _ {R : Type 0} (z : Zset R) (laws : ZsetLaws R z) (l : SlidingWindowLimiter) where
  zcard-pexpire :
      (now later : ℕ) (t : R)
      → (z.zcard (trimmed z (window_ms l) later (z.pexpire now (window_ms l) t))
          ≡ num (alive (window_ms l) later) (laws.scores t))
        ⊎ (z.zcard (trimmed z (window_ms l) later (z.pexpire now (window_ms l) t)) ≡ 0)
  unfolding trimmed
  zcard-pexpire now later t = elim (laws.found_at_lem later (z.pexpire now (window_ms l) t)) [
    | inl q ↦
        inl (
          card ∙ ap (num (alive (window_ms l) later)) (q ∙ laws.pexpire_scores now (window_ms l) t))
    | inr (q, d) ↦
        inr (card ∙ (ap (num (alive (window_ms l) later)) q ∙ num-nil (alive (window_ms l) later)))
  ]
    where
      found : R
      found = z.found_at later (z.pexpire now (window_ms l) t)

      card :
          z.zcard (z.zremrangebyscore (minus later (window_ms l)) found)
          ≡ num (alive (window_ms l) later) (laws.scores found)
      card =
          laws.zcard_lem _
          ∙ (ap length (laws.zremrangebyscore_lem (minus later (window_ms l)) found)
              ∙ length-alive (window_ms l) later (laws.scores found))

  -- Once the oldest entry is out of the window, there are fewer of them.
  zcard-after :
      (now later : ℕ) (t : R)
      → 0 < z.zcard t
      → now + retry_after_ms (window_ms l) now (z.zrange_first t) ≤ later
      → z.zcard (trimmed z (window_ms l) later (z.pexpire now (window_ms l) t)) < z.zcard t
  zcard-after now later t h k = elim (Option-cases (z.zrange_first t)) [
    | inl q ↦ absurd (omega (arith, h, laws.zcard_lem t, ap length (laws.zrange_none t q)))
    | inr (x, q) ↦ elim (zcard-pexpire now later t) [
      | inl e ↦ omega (
        arith,
        e,
        laws.zcard_lem t,
        num-short (alive (window_ms l) later) x (laws.scores t) (laws.zrange_some t x q)
            (gone x (subst (λ first. now + retry_after_ms (window_ms l) now first ≤ later) q k)),
      )
      | inr e ↦ omega (arith, e, h)
    ]
  ]
    where
      gone : (x : ℕ) → now + (x + window_ms l - now) ≤ later → alive (window_ms l) later x ≡ false
      gone x p = gone_at (window_ms l) x p
        where
          gone_at : (w x : ℕ) → now + (x + w - now) ≤ later → alive w later x ≡ false
          gone_at w x p = ground (arith, p)

  allowed_of_room :
      (now member : ℕ) (s : R)
      → z.zcard (trimmed z (window_ms l) now s) < pos_part l.limit
      → is_allowed z (allow z l (ask now member) s).0 ≡ true
  unfolding allow lua_sliding_window read_result
  allowed_of_room now member s h = ground (arith, open_limit l.limit _ h)
    where
      open_limit : (limit : ℤ) (n : ℕ) → n < pos_part limit → leb_ℤ limit (pos n) ≡ false
      open_limit (pos k) n q = ground (arith, q)
      open_limit (negsuc k) n q = absurd (omega arith)

  -- The answer of a script that refused or let through.
  refusal : (now : ℕ) (t : R) → Result
  refusal now t = record {
    allowed = false;
    current = z.zcard t;
    limit = l.limit;
    remaining = pos_part l.limit - z.zcard t;
    retry_after = retry_after_ms (window_ms l) now (z.zrange_first t);
  }

  -- A run of the script, of which a refusal is followed by admission.
  abbrev Recovers : ℕ → ℕ → ℕ → Result → List ℕ × R → Type 0
  Recovers now later other result run =
      read_result l.limit run.0 ≡ some result
      → result.allowed ≡ false
      → result.current ≤ pos_part l.limit
      → now + result.retry_after ≤ later
      → is_allowed z (allow z l (ask later other) run.1).0 ≡ true

  refused-Recovers :
      (now later other : ℕ) (result : Result) (t : R)
      → 0 < pos_part l.limit
      → leb_ℤ l.limit (pos (z.zcard t)) ≡ true
      → Recovers now later other result (
        0 ∷ z.zcard t ∷ retry_after_ms (window_ms l) now (z.zrange_first t) ∷ [],
        z.pexpire now (window_ms l) t,
      )
  unfolding read_result refusal
  refused-Recovers now later other result t h q e a c k =
      allowed_of_room later other (z.pexpire now (window_ms l) t) (
        omega (
          arith,
          zcard-after now later t (full l.limit (z.zcard t) h q) (waits (some_inj e)),
          crowded (some_inj e),
        ))
    where
      full : (limit : ℤ) (n : ℕ) → 0 < pos_part limit → leb_ℤ limit (pos n) ≡ true → 0 < n
      full (pos k) n p q = ground (arith, p, q)
      full (negsuc k) n p q = absurd (omega arith)

      some_inj : some (refusal now t) ≡ some result → refusal now t ≡ result
      some_inj e = ap (λ option. or_else (refusal now t) option) e

      waits :
          refusal now t ≡ result → now + retry_after_ms (window_ms l) now (z.zrange_first t) ≤ later
      waits e = omega (arith, ap (λ r. r.retry_after) e, k)

      crowded : refusal now t ≡ result → z.zcard t ≤ pos_part l.limit
      crowded e = omega (arith, ap (λ r. r.current) e, c)

  passed-Recovers :
      (now later other current : ℕ) (result : Result) (after : R)
      → Recovers now later other result (1 ∷ current ∷ 0 ∷ [], after)
  unfolding read_result
  passed-Recovers now later other current result after e a c k =
      cc (ap (λ option. is_allowed z option) e, a)

  -- If a request is refused while the count is not above a positive limit, then a request that
  -- waits at least as long as the refusal says is let through, if no other request came in
  -- between.
  pub retry_is_allowed :
      (now member later other : ℕ) (s : R) (result : Result)
      → 0 < pos_part l.limit
      → (allow z l (ask now member) s).0 ≡ some result
      → result.allowed ≡ false
      → result.current ≤ pos_part l.limit
      → now + result.retry_after ≤ later
      → is_allowed z (allow z l (ask later other) (allow z l (ask now member) s).1).0 ≡ true
  unfolding allow lua_sliding_window
  retry_is_allowed now member later other s result h e a c k =
      by_test (Recovers now later other result)
        (leb_ℤ l.limit (pos (z.zcard (trimmed z (window_ms l) now s)))) _ _
        (refused-Recovers now later other result (trimmed z (window_ms l) now s) h)
        (λ q. passed-Recovers now later other _ result _) e a c k
