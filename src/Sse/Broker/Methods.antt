-- ===== src/Sse/Broker/Methods.antt =====
-- Every method of the broker, and every round of a connection's loop, keeps the indexes exact.
use personal_assistant.Base.{
  ℕ, ◌≡◌, refl, inl, inr, Bool, true, false, String, Option, none, some, List, [], ◌∷◌, nat_key,
  string_key, arith, Option-cases, Bool-cases,
}
use personal_assistant.Base.Maps.{get}
use personal_assistant.Sse.Types.{ConnectionPolicy, StreamEvent}
use personal_assistant.Sse.Connection.{Connection}
use personal_assistant.Sse.Broker.Indexed.{Indexed, index-Indexed, unindex-Indexed}
use personal_assistant.Sse.Broker.{
  Broker, World, Wake, context_done, event_ready, heartbeat_due, new_broker, register,
  unregister_internal, close, unregister, kick, publish, publish_to_subject, publish_to_channel,
  close_all, revoke_subject, begin_drain, loop_event, loop_step,
}

pub new_broker-Indexed : (policy : ConnectionPolicy) → Indexed (new_broker policy)
unfolding new_broker get
new_broker-Indexed policy = record {
  named = λ id c q. cc;
  subject_exact = λ k id. refl;
  channel_exact = λ k id. refl;
  subject_no_empty = λ j q. cc;
  channel_no_empty = λ j q. cc;
  conns_unique = tt;
  subjects_unique = tt;
  channels_unique = tt;
  subject_unique = λ s. tt;
  channel_unique = λ s. tt;
  subject_limited = λ s. omega arith;
}

pub register-Indexed :
    (c : Connection) (w : World)
    → Indexed w.broker
    → get c.id w.broker.conns ≡ none
    → Indexed (register (some c) w).0.broker
unfolding register
register-Indexed c w v fresh = ground (arith, index-Indexed c w.broker v fresh)

unregister_internal-Indexed :
    (id : String) (b : Broker) → Indexed b → Indexed (unregister_internal id b)
unregister_internal-Indexed id b v = elim (Option-cases (get id b.conns)) [
  | inl q ↦ unfold unregister_internal in rw (q, unregister_internal) v
  | inr (c, q) ↦
      unfold unregister_internal in rw (q, unregister_internal) (unindex-Indexed id c b v q)
]

pub close-Indexed :
    (c : Connection) (reason : String) (w : World)
    → Indexed w.broker
    → Indexed (close c reason w).broker
unfolding close
close-Indexed c reason w v = ground (arith, unregister_internal-Indexed c.id w.broker v)

pub unregister-Indexed :
    (id : String) (w : World) → Indexed w.broker → Indexed (unregister id w).broker
unfolding unregister
unregister-Indexed id w v = elim (Option-cases (get id w.broker.conns)) [
  | inl q ↦ rw (q, unregister) v
  | inr (c, q) ↦
      rw (q, unregister) (close-Indexed c "unregister" _ (unindex-Indexed id c w.broker v q))
]

-- The indexes do not read the flag and the counter.
flags-Indexed :
    (b : Broker) (d : Bool) (n : ℕ)
    → Indexed b
    → Indexed (record b { draining = d; dropped_slow_consumers = n })
flags-Indexed b d n v = record {
  named = v.named;
  subject_exact = v.subject_exact;
  channel_exact = v.channel_exact;
  subject_no_empty = v.subject_no_empty;
  channel_no_empty = v.channel_no_empty;
  conns_unique = v.conns_unique;
  subjects_unique = v.subjects_unique;
  channels_unique = v.channels_unique;
  subject_unique = v.subject_unique;
  channel_unique = v.channel_unique;
  subject_limited = v.subject_limited;
}

kick-Indexed : (ids : List String) (w : World) → Indexed w.broker → Indexed (kick ids w).broker
unfolding kick
kick-Indexed [] w v = v
kick-Indexed (id ∷ ids) w v =
    kick-Indexed ids _ (unregister-Indexed id _ (flags-Indexed w.broker w.broker.draining _ v))

pub publish-Indexed :
    (cs : List Connection) (evt : Option StreamEvent) (w : World)
    → Indexed w.broker
    → Indexed (publish cs evt w).0.broker
unfolding publish
publish-Indexed cs none w v = v
publish-Indexed cs (some evt) w v = kick-Indexed _ _ v

pub close_all-Indexed :
    (cs : List Connection) (reason : String) (w : World)
    → Indexed w.broker
    → Indexed (close_all cs reason w).broker
unfolding close_all
close_all-Indexed [] reason w v = v
close_all-Indexed (c ∷ cs) reason w v =
    close_all-Indexed cs reason (close c reason w) (close-Indexed c reason w v)

pub begin_drain-Indexed : (w : World) → Indexed w.broker → Indexed (begin_drain w).broker
unfolding begin_drain
begin_drain-Indexed w v = elim (Bool-cases w.broker.draining) [
  | inl q ↦ simp q v
  | inr q ↦ simp q (close_all-Indexed _ "drain" _ (flags-Indexed w.broker true _ v))
]

loop_event-Indexed :
    (c : Connection) (ok : Bool) (queue : List (Option StreamEvent)) (w : World)
    → Indexed w.broker
    → Indexed (loop_event c ok queue w).broker
unfolding loop_event
loop_event-Indexed c ok [] w v = v
loop_event-Indexed c ok (none ∷ queue) w v = v
loop_event-Indexed c true (some evt ∷ queue) w v = v
loop_event-Indexed c false (some evt ∷ queue) w v = close-Indexed c "write_failed" _ v

pub loop_step-Indexed :
    (c : Connection) (wake : Wake) (w : World)
    → Indexed w.broker
    → Indexed (loop_step c wake w).broker
unfolding loop_step
loop_step-Indexed c context_done w v =
    ground (arith, close-Indexed c "context_done" w v, close-Indexed c "writer_missing" w v)
loop_step-Indexed c (event_ready ok) w v = ground (
  arith,
  loop_event-Indexed c ok (w.cells c.addr).queue w v,
  close-Indexed c "writer_missing" w v,
)
loop_step-Indexed c (heartbeat_due ok) w v =
    ground (arith, close-Indexed c "heartbeat_failed" w v, close-Indexed c "writer_missing" w v)

-- A call of the broker, or an event of a connection.
pub data Call : Type 0 where
  registers : Connection → Call
  unregisters : String → Call
  publishes_to_subject : ℕ → Option StreamEvent → Call
  publishes_to_channel : String → Option StreamEvent → Call
  revokes : ℕ → String → Call
  drains : Call
  closes : Connection → String → Call
  wakes : Connection → Wake → Call

unfoldable pub step : World → Call → World
step w (registers c) = (register (some c) w).0
step w (unregisters id) = unregister id w
step w (publishes_to_subject s evt) = (publish_to_subject s evt w).0
step w (publishes_to_channel ch evt) = (publish_to_channel ch evt w).0
step w (revokes s reason) = (revoke_subject s reason w).0
step w drains = begin_drain w
step w (closes c reason) = close c reason w
step w (wakes c wake) = loop_step c wake w
