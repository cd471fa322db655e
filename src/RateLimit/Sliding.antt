-- ===== src/RateLimit/Sliding.antt =====
-- sliding_window.go: the script, the call of it, and runs of calls for one identifier.
use personal_assistant.Base.{
  ℕ, suc, nat_eq, ◌≡◌, ◌≤◌, ◌+◌, ◌-◌, ◌/◌, Bool, false, List, [], ◌∷◌, Option, none, some,
  if◌then◌else◌,
}
use personal_assistant.Base.Int.{ℤ, pos, leb_ℤ, pos_part}
use personal_assistant.RateLimit.Zset.{Zset, ZsetLaws, minus}

pub record Result : Type 0 where
  pub allowed : Bool
  pub current : ℕ
  pub limit : ℤ
  pub remaining : ℕ
  pub retry_after : ℕ

pub record SlidingWindowLimiter : Type 0 where
  pub limit : ℤ
  pub window : ℤ

-- time.Duration's Milliseconds, or one minute where that is not positive.
abbrev pub window_ms : SlidingWindowLimiter → ℕ
window_ms l = if nat_eq (pos_part l.window / 1000000) 0 then 60000 else pos_part l.window / 1000000

-- What becomes of the request to Redis: it is answered, the script runs and the answer is lost, or the
-- script does not run.
pub data Delivery : Type 0 where
  answered reply_lost not_sent : Delivery

pub record Request : Type 0 where
  pub now : ℕ
  pub member : ℕ
  pub delivery : Delivery

-- A request that is answered.
abbrev pub ask : ℕ → ℕ → Request
ask now member = record { now = now; member = member; delivery = answered }

abbrev pub retry_after_ms : ℕ → ℕ → Option ℕ → ℕ
retry_after_ms window now none = 0
retry_after_ms window now (some oldest) = oldest + window - now

-- len(vals) < 3 is an error.
unfoldable pub read_result : ℤ → List ℕ → Option Result
read_result limit (flag ∷ current ∷ retry ∷ more) = some (record {
  allowed = nat_eq flag 1;
  current = current;
  limit = limit;
  remaining = pos_part limit - current;
  retry_after = retry;
})
read_result limit _ = none

module _ {R : Type 0} (z : Zset R) where
  -- The set without what is older than the window.
  unfoldable pub trimmed : ℕ → ℕ → R → R
  trimmed window now s = z.zremrangebyscore (minus now window) (z.found_at now s)

  unfoldable pub lua_sliding_window : ℤ → ℕ → ℕ → ℕ → R → List ℕ × R
  lua_sliding_window limit window now member s =
      let t = trimmed window now s in
      if leb_ℤ limit (pos (z.zcard t))
      then (
        0 ∷ z.zcard t ∷ retry_after_ms window now (z.zrange_first t) ∷ [],
        z.pexpire now window t,
      )
      else (1 ∷ suc (z.zcard t) ∷ 0 ∷ [], z.pexpire now window (z.zadd now member t))

  abbrev pub delivered : ℤ → Delivery → List ℕ × R → R → Option Result × R
  delivered limit answered run s = (read_result limit run.0, run.1)
  delivered limit reply_lost run s = (none, run.1)
  delivered limit not_sent run s = (none, s)

  unfoldable pub allow : SlidingWindowLimiter → Request → R → Option Result × R
  allow l request s =
      delivered l.limit request.delivery
        (lua_sliding_window l.limit (window_ms l) request.now request.member s) s

  abbrev pub is_allowed : Option Result → Bool
  is_allowed none = false
  is_allowed (some result) = result.allowed

  -- The times of the requests that are let through, the latest first.
  unfoldable pub admitted : SlidingWindowLimiter → List ℕ → R → List Request → List ℕ
  admitted l log s [] = log
  admitted l log s (request ∷ requests) =
      let step = allow l request s in
      admitted l (if is_allowed step.0 then request.now ∷ log else log) step.1 requests

  -- The times do not go back, and no request's member is in the set at its turn.
  abbrev pub IsOrdered : ℕ → List Request → Type 0
  IsOrdered time [] = Unit
  IsOrdered time (request ∷ requests) = (time ≤ request.now) × IsOrdered request.now requests

  module _ (laws : ZsetLaws R z) where
    abbrev pub AreFresh : SlidingWindowLimiter → R → List Request → Type 0
    AreFresh l s [] = Unit
    AreFresh l s (request ∷ requests) =
        (laws.is_member request.member (trimmed (window_ms l) request.now s) ≡ false)
        × AreFresh l (allow l request s).1 requests
