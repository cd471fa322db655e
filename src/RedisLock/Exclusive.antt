-- ===== src/RedisLock/Exclusive.antt =====
-- concurrency_lock.go: two clients never hold the lock at once.
use personal_assistant.Base.{
  ℕ, nat_eq, nat_eq_iff, ◌≡◌, sym, ap, subst, ◌∙◌, ◌≤◌, ◌<◌, ◌+◌, ◌*◌, inl, inr, Bool, true, false,
  Option, none, some, if◌then◌else◌, by_test, Bool-cases, Option-cases, arith,
}
use personal_assistant.RedisLock.Cell.{Cell, CellLaws}
use personal_assistant.RedisLock.Lock.{
  RedisLock, lock_expiration_seconds, LockError, lock_failed, unlock_failed, renew_failed, Delivery,
  answered, reply_lost, not_sent, owned_by, unlock_script, renew_script, delivered, try_lock,
  unlock, renew, Leases, set_lease, lease_after, renewed_lease,
}

expiration_covered : (e : ℕ) → e ≤ lock_expiration_seconds e * 1000
unfolding lock_expiration_seconds
expiration_covered e = ground arith

module _ {R : Type 0} (c : Cell R) (laws : CellLaws R c) where
  -- Each client whose lease has not run out is the one whose value the key holds, for as long.
  abbrev pub IsHeld : ℕ → Leases c → R → Type 0
  IsHeld time leases s =
      (value lease : ℕ)
      → leases value ≡ some lease
      → time < lease
      → (c.get s ≡ some value) × (lease ≤ laws.deadline s)

  found-IsHeld :
      (time now : ℕ) (leases : Leases c) (s : R)
      → IsHeld time leases s
      → time ≤ now
      → IsHeld now leases (c.found_at now s)
  found-IsHeld time now leases s h forward value lease q alive = elim (laws.found_at_lem now s) [
    | inl (same, until) ↦ (same ∙ held.0, omega (arith, until, held.1))
    | inr (gone, over) ↦ absurd (omega (arith, over, held.1, alive))
  ]
    where
      held : (c.get s ≡ some value) × (lease ≤ laws.deadline s)
      held = h value lease q (omega (arith, forward, alive))

  later-IsHeld :
      (time now : ℕ) (leases : Leases c) (s : R)
      → IsHeld time leases s
      → time ≤ now
      → IsHeld now leases s
  later-IsHeld time now leases s h forward value lease q alive =
      h value lease q (omega (arith, forward, alive))

  none-IsHeld :
      (now : ℕ) (leases : Leases c) (s after : R)
      → c.get s ≡ none
      → IsHeld now leases s
      → IsHeld now leases after
  none-IsHeld now leases s after free h value lease q alive =
      absurd (cc (free, (h value lease q alive).0))

  -- A client that has just taken the key, which was free.
  taken-IsHeld :
      (now value ttl : ℕ) (leases : Leases c) (s after : R)
      → c.get s ≡ none
      → IsHeld now leases s
      → c.get after ≡ some value
      → laws.deadline after ≡ now + ttl
      → IsHeld now (set_lease c value (some (now + ttl)) leases) after
  taken-IsHeld now value ttl leases s after free h owned until asked lease q alive =
      elim (Bool-cases (nat_eq value asked)) [
        | inl same ↦
            (owned ∙ ap some ((nat_eq_iff value asked).0 same), omega (arith, until, lease_is same))
        | inr other ↦ absurd (
            cc (
              free,
              (h asked lease
                  (ap (λ b. if b then some (now + ttl) else leases asked) (sym other) ∙ q) alive).0,
            ))
      ]
    where
      from_some : Option ℕ → ℕ
      from_some none = 0
      from_some (some n) = n

      lease_is : nat_eq value asked ≡ true → now + ttl ≡ lease
      lease_is same =
          ap from_some (ap (λ b. if b then some (now + ttl) else leases asked) (sym same) ∙ q)

  module _ (l : RedisLock) (time now : ℕ) (leases : Leases c) (s : R) (h : IsHeld time leases s)
      (forward : time ≤ now) where
    abbrev pub found : R
    found = c.found_at now s

    abbrev pub StepHeld : Option LockError × R → Type 0
    StepHeld step = IsHeld now (lease_after c l now step.0 leases) step.1

    free-StepHeld :
        (delivery : Delivery) (step : Bool × R)
        → step.0 ≡ true
        → c.get found ≡ none
        → c.get step.1 ≡ some l.value
        → laws.deadline step.1 ≡ now + l.expiration
        → StepHeld (delivered c lock_failed delivery step s)
    free-StepHeld answered (true, after) q free owned until =
        taken-IsHeld now l.value l.expiration leases found after free
          (found-IsHeld time now leases s h forward) owned until
    free-StepHeld answered (false, after) q free owned until = absurd cc
    free-StepHeld reply_lost (b, after) q free owned until =
        none-IsHeld now leases found after free (found-IsHeld time now leases s h forward)
    free-StepHeld not_sent (b, after) q free owned until = later-IsHeld time now leases s h forward

    -- A command that did nothing.
    idle-StepHeld :
        (problem : LockError) (delivery : Delivery)
        → StepHeld (delivered c problem delivery (false, found) s)
    idle-StepHeld problem answered = found-IsHeld time now leases s h forward
    idle-StepHeld problem reply_lost = found-IsHeld time now leases s h forward
    idle-StepHeld problem not_sent = later-IsHeld time now leases s h forward

    pub try_lock-IsHeld : (delivery : Delivery) → StepHeld (try_lock c l now delivery s)
    unfolding try_lock
    try_lock-IsHeld delivery = elim (Option-cases (c.get found)) [
      | inl free ↦
          let (answer, owned, until) = laws.set_nx_free now l.value l.expiration found free in
          free-StepHeld delivery (c.set_nx now l.value l.expiration found) answer free owned until
      | inr (owner, taken) ↦
          subst (λ step. StepHeld (delivered c lock_failed delivery step s))
            (sym (laws.set_nx_taken now l.value l.expiration owner found taken))
            (idle-StepHeld lock_failed delivery)
    ]

    -- The leases of the other clients, once this one has begun to unlock.
    abbrev pub OthersHeld : R → Type 0
    OthersHeld after = IsHeld now (set_lease c l.value none leases) after

    others : (after : R) → IsHeld now leases after → OthersHeld after
    others after k asked lease q alive = elim (Bool-cases (nat_eq l.value asked)) [
      | inl same ↦ absurd (no_lease (ap (λ b. if b then none else leases asked) (sym same) ∙ q))
      | inr other ↦ k asked lease (ap (λ b. if b then none else leases asked) (sym other) ∙ q) alive
    ]
      where
        no_lease : none ≡ some lease → ⊥
        no_lease q = cc

    deleted-OthersHeld : owned_by c l.value (c.get found) ≡ true → OthersHeld (c.del found)
    deleted-OthersHeld owned asked lease q alive = elim (Bool-cases (nat_eq l.value asked)) [
      | inl same ↦ absurd (no_lease (ap (λ b. if b then none else leases asked) (sym same) ∙ q))
      | inr other ↦ absurd (
          unequal other (
            ap (owned_by c l.value) (
              sym
                (found-IsHeld time now leases s h forward asked lease
                  (ap (λ b. if b then none else leases asked) (sym other) ∙ q) alive).0)
            ∙ owned))
    ]
      where
        no_lease : none ≡ some lease → ⊥
        no_lease q = cc

        unequal : nat_eq l.value asked ≡ false → nat_eq asked l.value ≡ true → ⊥
        unequal p q = ground (arith, p, q)

    unlocked-OthersHeld :
        (delivery : Delivery) (b : Bool) (after : R)
        → OthersHeld after
        → OthersHeld (delivered c unlock_failed delivery (b, after) s).1
    unlocked-OthersHeld answered b after k = k
    unlocked-OthersHeld reply_lost b after k = k
    unlocked-OthersHeld not_sent b after k = others s (later-IsHeld time now leases s h forward)

    pub unlock-OthersHeld : (delivery : Delivery) → OthersHeld (unlock c l now delivery s).1
    unfolding unlock unlock_script
    unlock-OthersHeld delivery =
        by_test (λ step. OthersHeld (delivered c unlock_failed delivery step s).1)
          (owned_by c l.value (c.get found)) (true, c.del found) (false, found)
          (λ q. unlocked-OthersHeld delivery true (c.del found) (deleted-OthersHeld q))
          (λ q.
            unlocked-OthersHeld delivery false found
              (others found (found-IsHeld time now leases s h forward)))

    module _ (short : (lease : ℕ) → leases l.value ≡ some lease → lease ≤ now + l.expiration) where
      abbrev renewed : R
      renewed = c.expire now (lock_expiration_seconds l.expiration) found

      owner_is :
          (value lease : ℕ)
          → owned_by c l.value (c.get found) ≡ true
          → leases value ≡ some lease
          → now < lease
          → value ≡ l.value
      owner_is value lease owned q alive = (nat_eq_iff value l.value).0 (
          ap (owned_by c l.value)
            (sym (found-IsHeld time now leases s h forward value lease q alive).0)
          ∙ owned)

      owned_value : owned_by c l.value (c.get found) ≡ true → c.get renewed ≡ some l.value
      owned_value owned =
          laws.expire_get now (lock_expiration_seconds l.expiration) found
          ∙ by_owner (c.get found) owned
        where
          by_owner : (o : Option ℕ) → owned_by c l.value o ≡ true → o ≡ some l.value
          by_owner none q = absurd cc
          by_owner (some owner) q = ap some ((nat_eq_iff owner l.value).0 q)

      covered : (lease : ℕ) → lease ≤ now + l.expiration → lease ≤ laws.deadline renewed
      covered lease k = omega (
        arith,
        k,
        laws.expire_deadline now (lock_expiration_seconds l.expiration) found,
        expiration_covered l.expiration,
      )

      renewed-IsHeld : owned_by c l.value (c.get found) ≡ true → IsHeld now leases renewed
      renewed-IsHeld owned value lease q alive =
          let same = owner_is value lease owned q alive in
          (
            owned_value owned ∙ ap some (sym same),
            covered lease (short lease (ap leases (sym same) ∙ q)),
          )

      prolonged-IsHeld :
          owned_by c l.value (c.get found) ≡ true
          → IsHeld now (set_lease c l.value (some (now + l.expiration)) leases) renewed
      prolonged-IsHeld owned value lease q alive = elim (Bool-cases (nat_eq l.value value)) [
        | inl same ↦ (
          owned_value owned ∙ ap some ((nat_eq_iff l.value value).0 same),
          covered lease (
              lease_is
                (ap (λ b. if b then some (now + l.expiration) else leases value) (sym same) ∙ q)),
        )
        | inr other ↦
            renewed-IsHeld owned value lease
              (ap (λ b. if b then some (now + l.expiration) else leases value) (sym other) ∙ q)
              alive
      ]
        where
          from_some : Option ℕ → ℕ
          from_some none = 0
          from_some (some n) = n

          lease_is : some (now + l.expiration) ≡ some lease → lease ≤ now + l.expiration
          lease_is q = omega (arith, ap from_some q)

      abbrev pub RenewHeld : Option ℕ → Option LockError × R → Type 0
      RenewHeld mine step = IsHeld now (renewed_lease c l now step.0 mine leases) step.1

      idle-RenewHeld :
          (mine : Option ℕ) (delivery : Delivery)
          → RenewHeld mine (delivered c renew_failed delivery (false, found) s)
      idle-RenewHeld none answered = found-IsHeld time now leases s h forward
      idle-RenewHeld none reply_lost = found-IsHeld time now leases s h forward
      idle-RenewHeld none not_sent = later-IsHeld time now leases s h forward
      idle-RenewHeld (some lease) answered = found-IsHeld time now leases s h forward
      idle-RenewHeld (some lease) reply_lost = found-IsHeld time now leases s h forward
      idle-RenewHeld (some lease) not_sent = later-IsHeld time now leases s h forward

      owned-RenewHeld :
          (mine : Option ℕ) (delivery : Delivery)
          → owned_by c l.value (c.get found) ≡ true
          → RenewHeld mine (delivered c renew_failed delivery (true, renewed) s)
      owned-RenewHeld none answered owned = renewed-IsHeld owned
      owned-RenewHeld none reply_lost owned = renewed-IsHeld owned
      owned-RenewHeld none not_sent owned = later-IsHeld time now leases s h forward
      owned-RenewHeld (some lease) answered owned = prolonged-IsHeld owned
      owned-RenewHeld (some lease) reply_lost owned = renewed-IsHeld owned
      owned-RenewHeld (some lease) not_sent owned = later-IsHeld time now leases s h forward

      pub renew-RenewHeld :
          (mine : Option ℕ) (delivery : Delivery) → RenewHeld mine (renew c l now delivery s)
      unfolding renew renew_script
      renew-RenewHeld mine delivery =
          by_test (λ step. RenewHeld mine (delivered c renew_failed delivery step s))
            (owned_by c l.value (c.get found)) (true, renewed) (false, found)
            (λ q. owned-RenewHeld mine delivery q) (λ _. idle-RenewHeld mine delivery)
