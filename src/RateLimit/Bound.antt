-- ===== src/RateLimit/Bound.antt =====
-- sliding_window.go: how many requests a window lets through.
use personal_assistant.Base.{
  ℕ, ◌≡◌, sym, ap, ◌+◌, ◌≤◌, ◌<◌, true, false, List, [], ◌∷◌, length, All, All-map, Option, none,
  arith, if◌then◌else◌, by_test, inl, inr, subst,
}
use personal_assistant.Base.Int.{ℤ, pos, negsuc, leb_ℤ, pos_part}
use personal_assistant.RateLimit.Zset.{Zset, ZsetLaws, num, minus}
use personal_assistant.RateLimit.Sliding.{
  Result, SlidingWindowLimiter, window_ms, Delivery, answered, reply_lost, not_sent, Request,
  read_result, trimmed, lua_sliding_window, delivered, allow, is_allowed, admitted, IsOrdered,
  AreFresh,
}
use personal_assistant.RateLimit.Counted.{
  alive, in_window, num_mono, num_none, num-cons, num-alive-keep_if, length-alive,
}

below_limit : (limit : ℤ) (n : ℕ) → leb_ℤ limit (pos n) ≡ false → n < pos_part limit
below_limit (pos k) n q = ground (arith, q)
below_limit (negsuc k) n q = ground (arith, q)

module _ {R : Type 0} (z : Zset R) (laws : ZsetLaws R z) (window : ℕ) (limit : ℤ) where
  -- What the set says of the times that were let through, at a time.
  record IsCounted (time : ℕ) (log : List ℕ) (s : R) : Type 0 where
    past : All (λ x. x ≤ time) log
    kept :
        (later : ℕ)
        → time ≤ later
        → num (alive window later) log ≤ num (alive window later) (laws.scores s)
    lasts : All (λ x. x + window ≤ laws.deadline s) log
    bound : (top : ℕ) → num (in_window window top) log ≤ pos_part limit

  later-past :
      (time now : ℕ) (log : List ℕ) → time ≤ now → All (λ x. x ≤ time) log → All (λ x. x ≤ now) log
  later-past time now log h k = All-map (λ x p. omega (arith, p, h)) log k

  module _ (time now : ℕ) (log : List ℕ) (s : R) (h : IsCounted time log s)
      (forward : time ≤ now) where
    found-kept :
        (later : ℕ)
        → now ≤ later
        → num (alive window later) log ≤ num (alive window later) (laws.scores (z.found_at now s))
    found-kept later k = elim (laws.found_at_lem now s) [
      | inl q ↦
          subst (λ xs. num (alive window later) log ≤ num (alive window later) xs) (sym q)
            (h.kept later (omega (arith, forward, k)))
      | inr (q, d) ↦ omega (
        arith,
        num_none (λ x. x + window ≤ laws.deadline s) (alive window later) (λ x p. over x p d) log
            h.lasts,
      )
    ]
      where
        over :
            (x : ℕ)
            → x + window ≤ laws.deadline s
            → laws.deadline s ≤ now
            → alive window later x ≡ false
        over x p d = ground (arith, p, d, k)

    trimmed-kept :
        (later : ℕ)
        → now ≤ later
        → num (alive window later) log
          ≤ num (alive window later) (laws.scores (trimmed z window now s))
    unfolding trimmed
    trimmed-kept later k = omega (
      arith,
      found-kept later k,
      ap (num (alive window later))
          (laws.zremrangebyscore_lem (minus now window) (z.found_at now s)),
      num-alive-keep_if window now later (laws.scores (z.found_at now s)) k,
    )

    zcard-trimmed : num (alive window now) log ≤ z.zcard (trimmed z window now s)
    unfolding trimmed
    zcard-trimmed = omega (
      arith,
      found-kept now (omega arith),
      laws.zcard_lem (trimmed z window now s),
      ap length (laws.zremrangebyscore_lem (minus now window) (z.found_at now s)),
      length-alive window now (laws.scores (z.found_at now s)),
    )

    refused : R
    refused = z.pexpire now window (trimmed z window now s)

    added : ℕ → R
    added member = z.pexpire now window (z.zadd now member (trimmed z window now s))

    fresh_lasts :
        (after : R)
        → laws.deadline after ≡ now + window
        → All (λ x. x + window ≤ laws.deadline after) log
    fresh_lasts after q = All-map (λ x p. omega (arith, p, forward, q)) log h.past

    refused-IsCounted : IsCounted now log refused
    unfolding refused
    refused-IsCounted = record {
      past = later-past time now log forward h.past;
      kept = λ later k. omega (
        arith,
        trimmed-kept later k,
        ap (num (alive window later)) (laws.pexpire_scores now window (trimmed z window now s)),
      );
      lasts = fresh_lasts _ (laws.pexpire_deadline now window (trimmed z window now s));
      bound = h.bound;
    }

    module _ (member : ℕ) (fresh : laws.is_member member (trimmed z window now s) ≡ false) where
      added-kept :
          (later : ℕ)
          → now ≤ later
          → num (alive window later) (now ∷ log)
            ≤ num (alive window later) (laws.scores (added member))
      unfolding added
      added-kept later k = ground (
        arith,
        trimmed-kept later k,
        num-cons (alive window later) now log,
        num-cons (alive window later) now (laws.scores (trimmed z window now s)),
        laws.zadd_lem now member (trimmed z window now s) (alive window later) fresh,
        ap (num (alive window later))
            (laws.pexpire_scores now window (z.zadd now member (trimmed z window now s))),
      )

      weaker-kept :
          (later : ℕ)
          → now ≤ later
          → num (alive window later) log ≤ num (alive window later) (laws.scores (added member))
      weaker-kept later k =
          ground (arith, added-kept later k, num-cons (alive window later) now log)

      -- The script ran, and its answer was lost.
      lost-IsCounted : IsCounted now log (added member)
      unfolding added
      lost-IsCounted = record {
        past = later-past time now log forward h.past;
        kept = weaker-kept;
        lasts =
            fresh_lasts _
              (laws.pexpire_deadline now window (z.zadd now member (trimmed z window now s)));
        bound = h.bound;
      }

      room_for :
          z.zcard (trimmed z window now s) < pos_part limit
          → (top : ℕ) → num (in_window window top) (now ∷ log) ≤ pos_part limit
      room_for room top = ground (
        arith,
        num-cons (in_window window top) now log,
        h.bound top,
        zcard-trimmed,
        room,
        λ (k : now ≤ top).
            num_mono (λ x. x ≤ time) (in_window window top) (alive window now)
              (λ x p q. recent x p q k) log h.past,
      )
        where
          recent :
              (x : ℕ)
              → x ≤ time
              → in_window window top x ≡ true
              → now ≤ top
              → alive window now x ≡ true
          recent x p q k = ground (arith, p, q, k)

      added-IsCounted :
          z.zcard (trimmed z window now s) < pos_part limit
          → IsCounted now (now ∷ log) (added member)
      unfolding added
      added-IsCounted room = record {
        past = (omega arith, later-past time now log forward h.past);
        kept = added-kept;
        lasts = (
          omega (
            arith,
            laws.pexpire_deadline now window (z.zadd now member (trimmed z window now s)),
          ),
          fresh_lasts _
              (laws.pexpire_deadline now window (z.zadd now member (trimmed z window now s))),
        );
        bound = room_for room;
      }

module _ {R : Type 0} (z : Zset R) (laws : ZsetLaws R z) (l : SlidingWindowLimiter) where
  -- The log and the set after a request are counted.
  abbrev Continues : ℕ → List ℕ → Option Result × R → Type 0
  Continues now log step =
      IsCounted z laws (window_ms l) l.limit now (if is_allowed z step.0 then now ∷ log else log)
        step.1

  module _ (time now member : ℕ) (log : List ℕ) (s : R)
      (h : IsCounted z laws (window_ms l) l.limit time log s) (forward : time ≤ now)
      (fresh : laws.is_member member (trimmed z (window_ms l) now s) ≡ false) where
    not_sent-Continues : Continues now log (none, s)
    not_sent-Continues = record {
      past = later-past z laws (window_ms l) l.limit time now log forward h.past;
      kept = λ later k. h.kept later (omega (arith, forward, k));
      lasts = h.lasts;
      bound = h.bound;
    }

    script-Continues :
        (delivery : Delivery)
        → Continues now log (
            delivered z l.limit delivery
              (lua_sliding_window z l.limit (window_ms l) now member s)
              s)
    unfolding lua_sliding_window read_result refused added
    script-Continues not_sent = not_sent-Continues
    script-Continues answered =
        by_test (λ run. Continues now log (delivered z l.limit answered run s))
          (leb_ℤ l.limit (pos (z.zcard (trimmed z (window_ms l) now s)))) _ _
          (λ q. refused-IsCounted z laws (window_ms l) l.limit time now log s h forward)
          (λ q.
            added-IsCounted z laws (window_ms l) l.limit time now log s h forward member fresh
              (below_limit l.limit _ q))
    script-Continues reply_lost =
        by_test (λ run. Continues now log (delivered z l.limit reply_lost run s))
          (leb_ℤ l.limit (pos (z.zcard (trimmed z (window_ms l) now s)))) _ _
          (λ q. refused-IsCounted z laws (window_ms l) l.limit time now log s h forward)
          (λ q. lost-IsCounted z laws (window_ms l) l.limit time now log s h forward member fresh)

  allow-Continues :
      (time : ℕ) (log : List ℕ) (s : R) (request : Request)
      → IsCounted z laws (window_ms l) l.limit time log s
      → time ≤ request.now
      → laws.is_member request.member (trimmed z (window_ms l) request.now s) ≡ false
      → Continues request.now log (allow z l request s)
  unfolding allow
  allow-Continues time log s request h forward fresh =
      script-Continues time request.now request.member log s h forward fresh request.delivery

  admitted-bound :
      (time : ℕ) (log : List ℕ) (s : R) (requests : List Request)
      → IsCounted z laws (window_ms l) l.limit time log s
      → IsOrdered z time requests
      → AreFresh z laws l s requests
      → (top : ℕ)
      → num (in_window (window_ms l) top) (admitted z l log s requests) ≤ pos_part l.limit
  unfolding admitted
  admitted-bound time log s [] h o f top = h.bound top
  admitted-bound time log s (request ∷ requests) h o f top =
      admitted-bound request.now _ (allow z l request s).1 requests
        (allow-Continues time log s request h o.0 f.0) o.1 f.1 top

  -- However requests for one identifier are timed (never going back), and whichever calls of
  -- Redis fail before or after the script has run, the requests that the sliding window lets
  -- through in any span of the window's length are no more than the limit, if each request's
  -- member is new to the set and the sorted set commands behave as documented.
  pub num-admitted :
      (s : R) (requests : List Request) (top : ℕ)
      → IsOrdered z 0 requests
      → AreFresh z laws l s requests
      → num (in_window (window_ms l) top) (admitted z l [] s requests) ≤ pos_part l.limit
  unfolding num
  num-admitted s requests top o f =
      admitted-bound 0 [] s requests
        (record { past = tt; kept = λ later k. omega arith; lasts = tt; bound = λ t. omega arith })
        o f top
