-- ===== src/RedisLock/Cell.antt =====
-- What the lock relies on in Redis: the commands on one key that holds a value, with what their
-- documentation says, and the expiry of the key. Times are in milliseconds.
use personal_assistant.Base.{ℕ, ◌≡◌, ◌≤◌, ◌+◌, ◌*◌, ◌⊎◌, Bool, true, false, Option, none, some}

pub record Cell (R : Type 0) : Type 0 where
  -- The key as it is found at a time: gone if its time has passed.
  pub found_at : ℕ → R → R
  pub get : R → Option ℕ
  pub set_nx : ℕ → ℕ → ℕ → R → Bool × R
  pub del : R → R
  pub expire : ℕ → ℕ → R → R

pub record CellLaws (R : Type 0) (c : Cell R) : Type 0 where
  pub deadline : R → ℕ
  pub found_at_lem :
      (now : ℕ) (s : R)
      → ((c.get (c.found_at now s) ≡ c.get s) × (deadline (c.found_at now s) ≡ deadline s))
        ⊎ ((c.get (c.found_at now s) ≡ none) × (deadline s ≤ now))
  -- SET key value NX PX ttl
  pub set_nx_free :
      (now value ttl : ℕ) (s : R)
      → c.get s ≡ none
      → ((c.set_nx now value ttl s).0 ≡ true)
        × (c.get (c.set_nx now value ttl s).1 ≡ some value)
        × (deadline (c.set_nx now value ttl s).1 ≡ now + ttl)
  pub set_nx_taken :
      (now value ttl owner : ℕ) (s : R)
      → c.get s ≡ some owner
      → c.set_nx now value ttl s ≡ (false, s)
  -- EXPIRE key seconds
  pub expire_get : (now seconds : ℕ) (s : R) → c.get (c.expire now seconds s) ≡ c.get s
  pub expire_deadline :
      (now seconds : ℕ) (s : R) → deadline (c.expire now seconds s) ≡ now + seconds * 1000
