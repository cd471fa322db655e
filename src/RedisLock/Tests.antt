-- ===== src/RedisLock/Tests.antt =====
-- Examples for the lock, over a key in memory, which meets the laws that the lock relies on.
use personal_assistant.Base.{
  ℕ, leb, ◌≡◌, refl, ap, ◌≤◌, ◌+◌, ◌*◌, ◌⊎◌, inl, inr, Bool, true, false, List, [], ◌∷◌, Option,
  none, some, if◌then◌else◌, Bool-cases, arith,
}
use personal_assistant.RedisLock.Cell.{Cell, CellLaws}
use personal_assistant.RedisLock.Lock.{
  answered, reply_lost, lock_expiration_seconds, unlock_script, renew_script, try_lock, unlock,
  renew, locking, renewing, Event, run, IsOrdered,
}
use personal_assistant.RedisLock.Holders.{idle, holder_unique}

record Key : Type 0 where
  owner : Option ℕ
  expires_at : ℕ

abbrev no_key : Key
no_key = record { owner = none; expires_at = 0 }

abbrev set_if_free : ℕ → ℕ → Key → Option ℕ → Bool × Key
set_if_free value until key none = (true, record { owner = some value; expires_at = until })
set_if_free value until key (some other) = (false, key)

abbrev in_memory : Cell Key
in_memory = record {
  found_at = λ now k. if leb k.expires_at now then no_key else k;
  get = λ k. k.owner;
  set_nx = λ now value ttl k. set_if_free value (now + ttl) k k.owner;
  del = λ k. no_key;
  expire = λ now seconds k. record { owner = k.owner; expires_at = now + seconds * 1000 };
}

found_or_gone :
    (now : ℕ) (k : Key)
    → (((if leb k.expires_at now then no_key else k).owner ≡ k.owner)
        × ((if leb k.expires_at now then no_key else k).expires_at ≡ k.expires_at))
      ⊎ (((if leb k.expires_at now then no_key else k).owner ≡ none) × (k.expires_at ≤ now))
found_or_gone now k = elim (Bool-cases (leb k.expires_at now)) [
  | inl q ↦ inr (ap (λ b. (if b then no_key else k).owner) q, within k.expires_at q)
  | inr q ↦ inl (
    ap (λ b. (if b then no_key else k).owner) q,
    ap (λ b. (if b then no_key else k).expires_at) q,
  )
]
  where
    within : (n : ℕ) → leb n now ≡ true → n ≤ now
    within n q = ground (arith, q)

free_is_set :
    (value until : ℕ) (k : Key) (owner : Option ℕ)
    → owner ≡ none
    → ((set_if_free value until k owner).0 ≡ true)
      × ((set_if_free value until k owner).1.owner ≡ some value)
      × ((set_if_free value until k owner).1.expires_at ≡ until)
free_is_set value until k none q = (refl, refl, refl)
free_is_set value until k (some other) q = absurd cc

taken_is_kept :
    (value until other : ℕ) (k : Key) (owner : Option ℕ)
    → owner ≡ some other
    → set_if_free value until k owner ≡ (false, k)
taken_is_kept value until other k none q = absurd cc
taken_is_kept value until other k (some o) q = refl

in_memory_laws : CellLaws Key in_memory
in_memory_laws = record {
  deadline = λ k. k.expires_at;
  found_at_lem = found_or_gone;
  set_nx_free = λ now value ttl k. free_is_set value (now + ttl) k k.owner;
  set_nx_taken = λ now value ttl owner k. taken_is_kept value (now + ttl) owner k k.owner;
  expire_get = λ now seconds k. refl;
  expire_deadline = λ now seconds k. refl;
}

abbrev asked : ℕ → ℕ
asked value = 3000

-- Client 1 locks and renews, client 2 fails, loses an answer, and gets the lock once the lease is over.
abbrev events : List (Event in_memory)
events =
    record { now = 0; value = 1; operation = locking; delivery = answered }
    ∷ record { now = 1000; value = 2; operation = locking; delivery = answered }
    ∷ record { now = 3333; value = 1; operation = renewing; delivery = answered }
    ∷ record { now = 4000; value = 2; operation = locking; delivery = reply_lost }
    ∷ record { now = 9000; value = 2; operation = locking; delivery = answered }
    ∷ []

in_order : IsOrdered in_memory 0 events 9500
in_order = (omega arith, (omega arith, (omega arith, (omega arith, (omega arith, omega arith)))))

second_holds :
    (run in_memory asked (idle in_memory in_memory_laws asked no_key) events).leases 2 ≡ some 14000
unfolding run try_lock renew unlock renew_script unlock_script lock_expiration_seconds
second_holds = refl

abbrev second : ℕ
second = 2

holder_unique_example :
    ((run in_memory asked (idle in_memory in_memory_laws asked no_key) events).cell.owner
      ≡ some second)
    × (second ≡ second)
holder_unique_example =
    holder_unique in_memory in_memory_laws asked no_key events 9500 second second 14000 14000
      in_order second_holds (omega arith) second_holds (omega arith)
