-- ===== src/RedisLock/Lock.antt =====
-- concurrency_lock.go: the operations of a lock, and runs of operations of several clients on one key.
use personal_assistant.Base.{
  ℕ, suc, ltb, nat_eq, ◌≤◌, ◌+◌, ◌/◌, ◌%◌, Bool, true, false, List, [], ◌∷◌, Option, none, some,
  if◌then◌else◌,
}
use personal_assistant.RedisLock.Cell.{Cell}

-- A client's lock: the value that it writes, and the expiry in milliseconds.
pub record RedisLock : Type 0 where
  pub value : ℕ
  pub expiration : ℕ

-- NewRedisLock: no less than five seconds.
abbrev pub new_redis_lock : ℕ → ℕ → RedisLock
new_redis_lock value expiration = record {
  value = value;
  expiration = if ltb expiration 5000 then 5000 else expiration;
}

unfoldable pub lock_expiration_seconds : ℕ → ℕ
lock_expiration_seconds expiration =
    let least = if ltb expiration 5000 then 5000 else expiration in
    if nat_eq (least % 1000) 0 then least / 1000 else suc (least / 1000)

pub data LockError : Type 0 where
  lock_failed unlock_failed renew_failed redis_failed : LockError

-- What becomes of a command: it is answered, it runs and the answer is lost, or it does not run.
pub data Delivery : Type 0 where
  answered reply_lost not_sent : Delivery

module _ {R : Type 0} (c : Cell R) where
  -- The two scripts compare the value first; they answer whether they did something.
  abbrev pub owned_by : ℕ → Option ℕ → Bool
  owned_by value none = false
  owned_by value (some owner) = nat_eq owner value

  unfoldable pub unlock_script : ℕ → R → Bool × R
  unlock_script value s = if owned_by value (c.get s) then (true, c.del s) else (false, s)

  unfoldable pub renew_script : ℕ → ℕ → ℕ → R → Bool × R
  renew_script now value seconds s =
      if owned_by value (c.get s) then (true, c.expire now seconds s) else (false, s)

  -- The error, if any, of a command that answers yes or no.
  abbrev pub answer_of : LockError → Bool → Option LockError
  answer_of problem true = none
  answer_of problem false = some problem

  abbrev pub delivered : LockError → Delivery → Bool × R → R → Option LockError × R
  delivered problem answered run s = (answer_of problem run.0, run.1)
  delivered problem reply_lost run s = (some redis_failed, run.1)
  delivered problem not_sent run s = (some redis_failed, s)

  unfoldable pub try_lock : RedisLock → ℕ → Delivery → R → Option LockError × R
  try_lock l now delivery s =
      delivered lock_failed delivery (c.set_nx now l.value l.expiration (c.found_at now s)) s

  unfoldable pub unlock : RedisLock → ℕ → Delivery → R → Option LockError × R
  unlock l now delivery s =
      delivered unlock_failed delivery (unlock_script l.value (c.found_at now s)) s

  unfoldable pub renew : RedisLock → ℕ → Delivery → R → Option LockError × R
  renew l now delivery s =
      delivered renew_failed delivery
        (renew_script now l.value (lock_expiration_seconds l.expiration) (c.found_at now s)) s

  -- Until when each value's client may take the lock for its own: from its last command that was
  -- answered with success, for the time of the expiry, unless it has begun to unlock.
  abbrev pub Leases : Type 0
  Leases = ℕ → Option ℕ

  abbrev pub set_lease : ℕ → Option ℕ → Leases → Leases
  set_lease value lease leases asked = if nat_eq value asked then lease else leases asked

  pub record System : Type 0 where
    pub cell : R
    pub leases : Leases

  pub data Operation : Type 0 where
    locking unlocking renewing : Operation

  pub record Event : Type 0 where
    pub now : ℕ
    pub value : ℕ
    pub operation : Operation
    pub delivery : Delivery

  abbrev pub lease_after : RedisLock → ℕ → Option LockError → Leases → Leases
  lease_after l now none leases = set_lease l.value (some (now + l.expiration)) leases
  lease_after l now (some problem) leases = leases

  -- A renewal prolongs a lease, and makes none.
  abbrev pub renewed_lease : RedisLock → ℕ → Option LockError → Option ℕ → Leases → Leases
  renewed_lease l now problem none leases = leases
  renewed_lease l now problem (some lease) leases = lease_after l now problem leases

  abbrev pub perform : Operation → RedisLock → ℕ → Delivery → System → System
  perform locking l now delivery sys = record {
    cell = (try_lock l now delivery sys.cell).1;
    leases = lease_after l now (try_lock l now delivery sys.cell).0 sys.leases;
  }
  perform unlocking l now delivery sys = record {
    cell = (unlock l now delivery sys.cell).1;
    leases = set_lease l.value none sys.leases;
  }
  perform renewing l now delivery sys = record {
    cell = (renew l now delivery sys.cell).1;
    leases = renewed_lease l now (renew l now delivery sys.cell).0 (sys.leases l.value) sys.leases;
  }

  -- Each value is made for one lock, of which `requested` says the time asked for.
  abbrev pub lock_of : (ℕ → ℕ) → ℕ → RedisLock
  lock_of requested value = new_redis_lock value (requested value)

  unfoldable pub run : (ℕ → ℕ) → System → List Event → System
  run requested sys [] = sys
  run requested sys (event ∷ events) =
      run requested
        (perform event.operation (lock_of requested event.value) event.now event.delivery sys)
        events

  -- The times do not go back, and none is later than the last.
  abbrev pub IsOrdered : ℕ → List Event → ℕ → Type 0
  IsOrdered time [] last = time ≤ last
  IsOrdered time (event ∷ events) last = (time ≤ event.now) × IsOrdered event.now events last
