-- ===== src/RedisLock/Holders.antt =====
-- concurrency_lock.go: runs of several clients on one key.
use personal_assistant.Base.{
  ℕ, nat_eq, nat_eq_iff, ◌≡◌, sym, ap, subst, ◌∙◌, ◌≤◌, ◌<◌, ◌+◌, inl, inr, List, [], ◌∷◌, Option,
  none, some, if◌then◌else◌, Bool-cases, arith,
}
use personal_assistant.RedisLock.Cell.{Cell, CellLaws}
use personal_assistant.RedisLock.Lock.{
  LockError, Delivery, try_lock, renew, Leases, set_lease, System, Operation, locking, unlocking,
  renewing, Event, lease_after, renewed_lease, perform, lock_of, run, IsOrdered,
}
use personal_assistant.RedisLock.Exclusive.{
  IsHeld, try_lock-IsHeld, unlock-OthersHeld, renew-RenewHeld,
}

module _ {R : Type 0} (c : Cell R) (laws : CellLaws R c) (requested : ℕ → ℕ) where
  -- No lease goes further than the expiry from now.
  abbrev IsShort : ℕ → Leases c → Type 0
  IsShort time leases =
      (value lease : ℕ)
      → leases value ≡ some lease
      → lease ≤ time + (lock_of c requested value).expiration

  abbrev IsSafe : ℕ → System c → Type 0
  IsSafe time sys = IsHeld c laws time sys.leases sys.cell × IsShort time sys.leases

  module _ (time now : ℕ) (leases : Leases c) (h : IsShort time leases) (forward : time ≤ now)
      (value : ℕ) where
    later-IsShort : IsShort now leases
    later-IsShort asked lease q = omega (arith, h asked lease q, forward)

    set-IsShort :
        (mine : Option ℕ)
        → ((lease : ℕ) → mine ≡ some lease → lease ≤ now + (lock_of c requested value).expiration)
        → IsShort now (set_lease c value mine leases)
    set-IsShort mine fits asked lease q = elim (Bool-cases (nat_eq value asked)) [
      | inl same ↦
          subst (λ v. lease ≤ now + (lock_of c requested v).expiration)
            ((nat_eq_iff value asked).0 same)
            (fits lease (ap (λ b. if b then mine else leases asked) (sym same) ∙ q))
      | inr other ↦
          later-IsShort asked lease (ap (λ b. if b then mine else leases asked) (sym other) ∙ q)
    ]

    prolonged :
        (lease : ℕ)
        → some (now + (lock_of c requested value).expiration) ≡ some lease
        → lease ≤ now + (lock_of c requested value).expiration
    prolonged lease q = omega (arith, ap from_some q)
      where
        from_some : Option ℕ → ℕ
        from_some none = 0
        from_some (some n) = n

    dropped : (lease : ℕ) → none ≡ some lease → lease ≤ now + (lock_of c requested value).expiration
    dropped lease q = absurd cc

    after-IsShort :
        (problem : Option LockError)
        → IsShort now (lease_after c (lock_of c requested value) now problem leases)
    after-IsShort none = set-IsShort (some (now + (lock_of c requested value).expiration)) prolonged
    after-IsShort (some problem) = later-IsShort

    renewed-IsShort :
        (problem : Option LockError) (mine : Option ℕ)
        → IsShort now (renewed_lease c (lock_of c requested value) now problem mine leases)
    renewed-IsShort problem none = later-IsShort
    renewed-IsShort problem (some lease) = after-IsShort problem

  perform-IsSafe :
      (time now value : ℕ) (operation : Operation c) (delivery : Delivery) (sys : System c)
      → IsSafe time sys
      → time ≤ now
      → IsSafe now (perform c operation (lock_of c requested value) now delivery sys)
  perform-IsSafe time now value locking delivery sys h forward = (
    try_lock-IsHeld c laws (lock_of c requested value) time now sys.leases sys.cell h.0 forward
        delivery,
    after-IsShort time now sys.leases h.1 forward value
        (try_lock c (lock_of c requested value) now delivery sys.cell).0,
  )
  perform-IsSafe time now value unlocking delivery sys h forward = (
    unlock-OthersHeld c laws (lock_of c requested value) time now sys.leases sys.cell h.0 forward
        delivery,
    set-IsShort time now sys.leases h.1 forward value none
        (dropped time now sys.leases h.1 forward value),
  )
  perform-IsSafe time now value renewing delivery sys h forward = (
    renew-RenewHeld c laws (lock_of c requested value) time now sys.leases sys.cell h.0 forward
        (later-IsShort time now sys.leases h.1 forward value value) (sys.leases value) delivery,
    renewed-IsShort time now sys.leases h.1 forward value
        (renew c (lock_of c requested value) now delivery sys.cell).0 (sys.leases value),
  )

  run-IsSafe :
      (time last : ℕ) (sys : System c) (events : List (Event c))
      → IsSafe time sys
      → IsOrdered c time events last
      → IsSafe last (run c requested sys events)
  unfolding run
  run-IsSafe time last sys [] h o = (
    λ value lease q alive. h.0 value lease q (omega (arith, o, alive)),
    λ value lease q. omega (arith, h.1 value lease q, o),
  )
  run-IsSafe time last sys (event ∷ events) h o =
      run-IsSafe event.now last _ events
        (perform-IsSafe time event.now event.value event.operation event.delivery sys h o.0) o.1

  abbrev pub idle : R → System c
  idle s = record { cell = s; leases = λ value. none }

  -- In every run of locking, unlocking and renewing by any clients on one key, with answers
  -- that are lost and commands that never run, and times that do not go back: a client whose
  -- last successful command is less than the expiry ago, and that has not begun to unlock
  -- since, is the one whose value the key holds, and no two different clients are so at once,
  -- if the commands behave as documented and each value is used for one lock.
  pub holder_unique :
      (s : R) (events : List (Event c)) (last one two first second : ℕ)
      → IsOrdered c 0 events last
      → (run c requested (idle s) events).leases one ≡ some first
      → last < first
      → (run c requested (idle s) events).leases two ≡ some second
      → last < second
      → (c.get (run c requested (idle s) events).cell ≡ some one) × (one ≡ two)
  holder_unique s events last one two first second o q alive p lives =
      let safe =
        run-IsSafe 0 last (idle s) events
          (λ value lease r. absurd (none_some r), λ value lease r. absurd (none_some r)) o in
      (
        (safe.0 one first q alive).0,
        ap from_some (sym (safe.0 one first q alive).0 ∙ (safe.0 two second p lives).0),
      )
    where
      none_some : {n : ℕ} → none ≡ some n → ⊥
      none_some r = cc

      from_some : Option ℕ → ℕ
      from_some none = 0
      from_some (some n) = n
