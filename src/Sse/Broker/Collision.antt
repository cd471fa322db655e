-- ===== src/Sse/Broker/Collision.antt =====
-- `Serve` lets the client choose the connection id, and `Register` does not look whether the id is
-- taken.
use personal_assistant.Base.{
  ℕ, ◌≡◌, ◌≢◌, ap, ◌∙◌, true, false, String, none, some, nat_key, string_key, arith, length,
}
use personal_assistant.Base.Maps.{get, put, get-put, length-put_present}
use personal_assistant.Base.Buckets.{bucket, entry, add_entry}
use personal_assistant.Sse.Connection.{Connection, start}
use personal_assistant.Sse.Broker.{Broker, World, subject_key, is_full, index, register, close}
use personal_assistant.Sse.Broker.Indexed.{Indexed}
use personal_assistant.Sse.Broker.Live.{Live, Registered, get-close}
use personal_assistant.Sse.Broker.Shutdown.{selected_self}

bucket-index :
    (s : ℕ) (d : Connection) (b : Broker) (c : Connection)
    → subject_key d ≡ some s
    → entry s d.id b.by_subject ≡ some c
    → length (bucket s (index d b).by_subject) ≡ length (bucket s b.by_subject)
bucket-index s d b c k q =
    unfold index add_entry in
    rw k (
      ground (
        arith,
        get-put s s (put d.id d (bucket s b.by_subject)) b.by_subject,
        nat_key.same_iff s s,
        length-put_present d.id d c (bucket s b.by_subject) q,
      ))

-- In such a world, where a registered connection and a second one, another object, carry one id
-- and one subject, the broker does not drain and the subject is not full, registering the
-- second succeeds in the registry while the first stays open; the subject's connections are
-- counted as before; and when the first is then closed, the second is taken out of the
-- registry.
pub register_same_id :
    (c d : Connection) (s : ℕ) (w : World)
    → Indexed w.broker
    → Live w
    → Registered c w.broker
    → subject_key c ≡ some s
    → subject_key d ≡ some s
    → d.id ≡ c.id
    → d.addr ≢ c.addr
    → w.broker.draining ≡ false
    → is_full d w.broker ≡ false
    → (reason : String)
    → let w' = (register (some d) w).0 in
      (get c.id w'.broker.conns ≡ some d)
      × ((w'.cells c.addr).closed ≡ false)
      × (length (bucket s w'.broker.by_subject) ≡ length (bucket s w.broker.by_subject))
      × (get d.id (close c reason w').broker.conns ≡ none)
register_same_id c d s w i v r kc kd same apart idle room reason = (
  rw registered found,
  rw registered unclosed,
  rw registered (bucket-index s d w.broker c kd listed),
  rw registered (
      ground (
        arith,
        get-close c reason after d.id,
        unclosed,
        hooked,
        same,
        string_key.same_iff c.id d.id,
      )),
)
  where
    after : World
    after = record { broker = index d w.broker; cells = (register (some d) w).0.cells }

    registered : (register (some d) w).0 ≡ after
    registered = unfold register in ground (arith, idle, room)

    found : get c.id after.broker.conns ≡ some d
    found =
        unfold index in
        ground (arith, get-put d.id c.id d w.broker.conns, same, string_key.same_iff d.id c.id)

    unclosed : (after.cells c.addr).closed ≡ false
    unclosed = unfold register start in ground (arith, idle, room, v.is_open c r, apart)

    hooked : (after.cells c.addr).has_on_close ≡ true
    hooked = unfold register start in ground (arith, idle, room, v.is_open c r, apart)

    listed : entry s d.id w.broker.by_subject ≡ some c
    listed =
        i.subject_exact s d.id ∙ selected_self s _ c (ap (λ x. get x w.broker.conns) same ∙ r) kc
