-- ===== src/Sse/Broker/Reach.antt =====
-- The worlds that calls can reach, and the invariants of each of them.
use personal_assistant.Base.{
  ◌≡◌, true, false, String, List, inl, inr, Bool-cases, All, All-map, nat_key, string_key,
}
use personal_assistant.Sse.Types.{ConnectionPolicy}
use personal_assistant.Sse.Connection.{Connection, Cells}
use personal_assistant.Sse.Broker.{
  World, new_broker, begin_drain, revoke_subject, publish_to_subject, publish_to_channel, close_all,
  snapshot_all, snapshot_by_subject,
}
use personal_assistant.Sse.Broker.Indexed.{Indexed}
use personal_assistant.Sse.Broker.Live.{Live, Registered, Consistent, close-Live}
use personal_assistant.Sse.Broker.Methods.{
  Call, registers, unregisters, publishes_to_subject, publishes_to_channel, revokes, drains, closes,
  wakes, step, new_broker-Indexed, register-Indexed, unregister-Indexed, publish-Indexed,
  close_all-Indexed, begin_drain-Indexed, close-Indexed, loop_step-Indexed,
}
use personal_assistant.Sse.Broker.Lifecycle.{
  IsNew, new_broker-Live, register-Live, unregister-Live, publish-Live, close_all-Live,
  loop_step-Live,
}
use personal_assistant.Sse.Broker.Shutdown.{
  Settled, Settled-Consistent, All-Settled, subject-Settled, drained, drained-Live, begin_drain-eq,
  begin_drain-empties,
}
use personal_assistant.Sse.Broker.Drained.{IsDrained, run, run-IsDrained, close_all-draining}

-- A connection that is registered is not closed, and no registered connection has its id or its
-- address; and a connection that is closed or wakes up is one of the program's own pointers: a registered
-- connection at its address is the connection itself.
abbrev pub IsProper : World → Call → Type 0
IsProper w (registers c) = IsNew c w
IsProper w (closes c reason) = Consistent c w.broker
IsProper w (wakes c wake) = Consistent c w.broker
IsProper w _ = Unit {0}

pub data Reach (policy : ConnectionPolicy) : World → Type 0 where
  starts : (cells : Cells) → Reach policy (record { broker = new_broker policy; cells = cells })
  calls : (w : World) (call : Call) → IsProper w call → Reach policy w → Reach policy (step w call)

step-Indexed :
    (w : World) (call : Call) → IsProper w call → Indexed w.broker → Indexed (step w call).broker
unfolding step publish_to_subject publish_to_channel revoke_subject
step-Indexed w (registers c) proper v = register-Indexed c w v proper.new_id
step-Indexed w (unregisters id) proper v = unregister-Indexed id w v
step-Indexed w (publishes_to_subject s evt) proper v = publish-Indexed _ evt w v
step-Indexed w (publishes_to_channel ch evt) proper v = publish-Indexed _ evt w v
step-Indexed w (revokes s reason) proper v = close_all-Indexed _ reason w v
step-Indexed w drains proper v = begin_drain-Indexed w v
step-Indexed w (closes c reason) proper v = close-Indexed c reason w v
step-Indexed w (wakes c wake) proper v = loop_step-Indexed c wake w v

Settled-Live :
    (cs : List Connection) (reason : String) (w : World)
    → Live w
    → All (Settled w) cs
    → Live (close_all cs reason w)
Settled-Live cs reason w v s =
    close_all-Live cs reason w v (All-map (λ c t. Settled-Consistent w c v t) cs s)

begin_drain-Live : (w : World) → Indexed w.broker → Live w → Live (begin_drain w)
begin_drain-Live w i v = elim (Bool-cases w.broker.draining) [
  | inl q ↦ unfold begin_drain in simp q v
  | inr q ↦ rw (begin_drain-eq w q) (
      Settled-Live (snapshot_all w.broker) "drain" (drained w) (drained-Live w v) (All-Settled w i))
]

step-Live :
    (w : World) (call : Call) → IsProper w call → Indexed w.broker → Live w → Live (step w call)
unfolding step publish_to_subject publish_to_channel revoke_subject
step-Live w (registers c) proper i v = register-Live c w v proper
step-Live w (unregisters id) proper i v = unregister-Live id w v
step-Live w (publishes_to_subject s evt) proper i v = publish-Live _ evt w v
step-Live w (publishes_to_channel ch evt) proper i v = publish-Live _ evt w v
step-Live w (revokes s reason) proper i v =
    Settled-Live (snapshot_by_subject s w.broker) reason w v (subject-Settled w i s)
step-Live w drains proper i v = begin_drain-Live w i v
step-Live w (closes c reason) proper i v = close-Live c reason w v proper
step-Live w (wakes c wake) proper i v = loop_step-Live c wake w v proper

-- In every world that proper calls reach from a new broker (a connection that is registered is
-- not closed, and no registered connection has its id or its address; and a registered
-- connection at the address of one that is closed or wakes up is that connection itself), the
-- subject index and the channel index hold exactly the registered connections under their keys,
-- no index keeps an empty bucket, the registry, the indexes and their buckets hold no key
-- twice, no subject has more connections than the policy's limit, and every registered
-- connection is open, has the broker's callback and has an address of its own.
pub Reach-invariant :
    {policy : ConnectionPolicy} {w : World} → Reach policy w → Indexed w.broker × Live w
Reach-invariant {policy} (starts cells) = (new_broker-Indexed policy, new_broker-Live policy cells)
Reach-invariant (calls w call proper r) =
    let (i, v) = Reach-invariant r in (step-Indexed w call proper i, step-Live w call proper i v)

-- In a reachable world that is not draining, a drain closes every registered connection and
-- leaves none registered, and after it no sequence of calls registers a connection or ends the
-- drain.
pub drain_is_final :
    {policy : ConnectionPolicy} {w : World}
    → Reach policy w
    → w.broker.draining ≡ false
    → ((cs : List Call) → IsDrained (run (begin_drain w) cs))
      × ((c : Connection) → Registered c w.broker → ((begin_drain w).cells c.addr).closed ≡ true)
drain_is_final {policy} {w} r q =
    let (i, v) = Reach-invariant r in
    let (gone, shut) = begin_drain-empties w i v q in
    (λ cs. run-IsDrained (begin_drain w) cs (record { flag = flagged; gone = gone }), shut)
  where
    flagged : (begin_drain w).broker.draining ≡ true
    flagged =
        rw (begin_drain-eq w q) (close_all-draining (snapshot_all w.broker) "drain" (drained w))
