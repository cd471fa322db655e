-- ===== src/Sse/Broker/Live.antt =====
-- Registered connections are open, have the broker's callback, and have addresses of their own.
use personal_assistant.Base.{
  ℕ, ◌≡◌, ◌≢◌, inl, inr, true, false, String, none, some, if◌then◌else◌, nat_key, string_key,
  nat_eq, arith, Option-cases, Bool-cases, ◌==◌,
}
use personal_assistant.Base.Maps.{get, get-del}
use personal_assistant.Sse.Connection.{Connection, mark_closed}
use personal_assistant.Sse.Broker.{Broker, World, unindex, unregister_internal, close}

abbrev pub Registered : Connection → Broker → Type 0
Registered c b = get c.id b.conns ≡ some c

pub record Live (w : World) : Type 0 where
  pub named : (id : String) (c : Connection) → get id w.broker.conns ≡ some c → c.id ≡ id
  pub is_open :
      (c : Connection)
      → Registered c w.broker
      → ((w.cells c.addr).closed ≡ false) × ((w.cells c.addr).has_on_close ≡ true)
  pub apart :
      (c d : Connection) → Registered c w.broker → Registered d w.broker → c.addr ≡ d.addr → c ≡ d

-- A pointer that is equal to a registered connection's is that connection.
abbrev pub Consistent : Connection → Broker → Type 0
Consistent c b = (d : Connection) → Registered d b → d.addr ≡ c.addr → d ≡ c

pub get-unregister_internal :
    (id j : String) (b : Broker)
    → get j (unregister_internal id b).conns ≡ (if id == j then none else get j b.conns)
unfolding unregister_internal unindex
get-unregister_internal id j b = elim (Option-cases (get id b.conns)) [
  | inl q ↦ rw (q, unregister_internal) (ground (arith, q, string_key.same_iff id j))
  | inr (c, q) ↦ rw (q, unregister_internal) (get-del id j b.conns)
]

-- Closing twice changes nothing, and closing marks the cell.
pub close_closed :
    (c : Connection) (reason : String) (w : World) → ((close c reason w).cells c.addr).closed ≡ true
unfolding close mark_closed
close_closed c reason w = ground arith

pub get-close :
    (c : Connection) (reason : String) (w : World) (j : String)
    → get j (close c reason w).broker.conns ≡ (
        if (w.cells c.addr).closed
        then get j w.broker.conns
        else if (w.cells c.addr).has_on_close
        then if c.id == j then none else get j w.broker.conns
        else get j w.broker.conns)
unfolding close mark_closed
get-close c reason w j = ground (arith, get-unregister_internal c.id j w.broker)

-- Closing only ever takes connections out of the registry.
pub close-shrinks :
    (c : Connection) (reason : String) (w : World) (j : String) (d : Connection)
    → get j (close c reason w).broker.conns ≡ some d
    → get j w.broker.conns ≡ some d
close-shrinks c reason w j d h = ground (arith, get-close c reason w j)

pub cells-close :
    (c : Connection) (reason : String) (w : World) (a : ℕ)
    → c.addr ≢ a
    → (close c reason w).cells a ≡ w.cells a
unfolding close mark_closed
cells-close c reason w a h = ground arith

pub close-Live :
    (c : Connection) (reason : String) (w : World)
    → Live w
    → Consistent c w.broker
    → Live (close c reason w)
close-Live c reason w v k = record {
  named = λ id d q. v.named id d (close-shrinks c reason w id d q);
  is_open = λ d q. elim (Bool-cases (nat_eq c.addr d.addr)) [
    | inl e ↦ absurd (gone d (close-shrinks c reason w d.id d q) e q)
    | inr e ↦
        rw (cells-close c reason w d.addr (ground arith))
          (v.is_open d (close-shrinks c reason w d.id d q))
  ];
  apart = λ d d' q q'.
      v.apart d d' (close-shrinks c reason w d.id d q) (close-shrinks c reason w d'.id d' q');
}
  where
    gone :
        (d : Connection)
        → Registered d w.broker
        → nat_eq c.addr d.addr ≡ true
        → get d.id (close c reason w).broker.conns ≡ some d
        → ⊥
    gone d r e q =
        ground
          (arith, v.is_open d r, get-close c reason w d.id, k d r, string_key.same_iff c.id d.id)
