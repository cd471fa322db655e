-- ===== src/Sse/Broker.antt =====
-- internal/infrastructure/sse/broker.go: the registry of this process's connections and its two
-- indexes. `World` is the broker with the cells of all connections. Each method runs under the
-- broker's lock or on a snapshot, and is one function here. `Connection.Close` and the event loop
-- stand here too, since closing calls back into the broker.
pub mod Indexed
pub mod Methods
pub mod Live
pub mod Lifecycle
pub mod Drained
pub mod Reach
pub mod Publish
pub mod Shutdown
pub mod Collision
mod Tests
use personal_assistant.Base.{
  ℕ, ◌+◌, ◌%◌, ◌&&◌, Bool, true, false, String, Option, none, some, List, [], ◌∷◌, ◌++◌, ltb,
  if◌then◌else◌, length, ◌==◌, nat_key, string_key,
}
use personal_assistant.Base.Maps.{Map, get, put, del, values}
use personal_assistant.Base.Int.{pos, leb_ℤ}
use personal_assistant.Base.Buckets.{bucket, add_entry, drop_entry}
use personal_assistant.Sse.Types.{StreamEvent, ConnectionPolicy, BrokerStats, normalize}
use personal_assistant.Sse.Connection.{Connection, Cells, store, start, enqueue, mark_closed}

pub record Broker : Type 0 where
  pub policy : ConnectionPolicy
  pub conns : Map String Connection
  pub by_subject : Map ℕ (Map String Connection)
  pub by_channel : Map String (Map String Connection)
  pub draining : Bool
  pub dropped_slow_consumers : ℕ  -- int64, as a bit pattern

pub record World : Type 0 where
  pub broker : Broker
  pub cells : Cells

pub data RegisterError : Type 0 where
  connection_is_nil broker_is_draining too_many_connections : RegisterError

unfoldable pub new_broker : ConnectionPolicy → Broker
new_broker policy = record {
  policy = normalize policy;
  conns = [];
  by_subject = [];
  by_channel = [];
  draining = false;
  dropped_slow_consumers = 0;
}

-- conn.Principal != nil && conn.Principal.SubjectID > 0, with the subject that it guards.
unfoldable pub subject_key : Connection → Option ℕ
subject_key c = elim c.principal [
  | none ↦ none
  | some p ↦ if ltb 0 p.subject_id then some p.subject_id else none
]

-- conn.Channel != "", with the channel.
unfoldable pub channel_key : Connection → Option String
channel_key c = if c.channel == "" then none else some c.channel

abbrev pub add_under {ℓ} :
    {K : Type ℓ}
    → (K → Map K (Map String Connection) → Map K (Map String Connection))
    → Option K
    → Map K (Map String Connection)
    → Map K (Map String Connection)
add_under f none m = m
add_under f (some k) m = f k m

unfoldable pub is_full : Connection → Broker → Bool
is_full c b = elim (subject_key c) [
  | none ↦ false
  | some s ↦ leb_ℤ b.policy.max_connections_per_subject (pos (length (bucket s b.by_subject)))
]

-- The three index writes of `Register`.
unfoldable pub index : Connection → Broker → Broker
index c b = record b {
  conns = put c.id c b.conns;
  by_subject = add_under (λ s. add_entry s c.id c) (subject_key c) b.by_subject;
  by_channel = add_under (λ s. add_entry s c.id c) (channel_key c) b.by_channel;
}

unfoldable pub register : Option Connection → World → World × Option RegisterError
register none w = (w, some connection_is_nil)
register (some c) w =
    if w.broker.draining
    then (w, some broker_is_draining)
    else if is_full c w.broker
    then (w, some too_many_connections)
    else (
      record {
        broker = index c w.broker;
        cells = start c (store c (record (w.cells c.addr) { has_on_close = true }) w.cells);
      },
      none,
    )

-- What `unregisterInternal` deletes for a connection that it found.
unfoldable pub unindex : String → Connection → Broker → Broker
unindex id c b = record b {
  conns = del id b.conns;
  by_subject = add_under (λ s. drop_entry s id) (subject_key c) b.by_subject;
  by_channel = add_under (λ s. drop_entry s id) (channel_key c) b.by_channel;
}

-- `unregisterInternal(connID, false)`
unfoldable pub unregister_internal : String → Broker → Broker
unregister_internal id b = elim (get id b.conns) [ none ↦ b | some c ↦ unindex id c b ]

-- `Connection.Close`, with the callback that `Register` set.
unfoldable pub close : Connection → String → World → World
close c reason w =
    let (cells, ran) = mark_closed c reason w.cells in
    if ran && (w.cells c.addr).has_on_close
    then record { broker = unregister_internal c.id w.broker; cells = cells }
    else record w { cells = cells }

-- `Unregister`: the indexes first, then the connection, out of the lock.
unfoldable pub unregister : String → World → World
unregister id w = elim (get id w.broker.conns) [
  | none ↦ w
  | some c ↦ close c "unregister" (record w { broker = unindex id c w.broker })
]

-- The loop of `publish` over the snapshot: how many took the event, and the ids of those that did not.
unfoldable pub offer : List Connection → StreamEvent → Cells → Cells × ℕ × List String
offer [] evt cells = (cells, 0, [])
offer (c ∷ cs) evt cells =
    let (cells', taken) = enqueue c (some evt) cells in
    let (cells'', delivered, slow) = offer cs evt cells' in
    if taken then (cells'', delivered + 1, slow) else (cells'', delivered, c.id ∷ slow)

unfoldable pub kick : List String → World → World
kick [] w = w
kick (id ∷ ids) w = kick ids (
    unregister id (record w {
      broker = record (w.broker) {
        dropped_slow_consumers = (w.broker.dropped_slow_consumers + 1) % 18446744073709551616;
      };
    }))

unfoldable pub publish : List Connection → Option StreamEvent → World → World × ℕ
publish cs none w = (w, 0)
publish cs (some evt) w =
    let (cells, delivered, slow) = offer cs evt w.cells in
    (kick slow (record w { cells = cells }), delivered)

unfoldable pub snapshot_by_subject : ℕ → Broker → List Connection
snapshot_by_subject s b = values (bucket s b.by_subject)

unfoldable pub snapshot_by_channel : String → Broker → List Connection
snapshot_by_channel ch b = values (bucket ch b.by_channel)

unfoldable pub snapshot_all : Broker → List Connection
snapshot_all b = values b.conns

unfoldable pub publish_to_subject : ℕ → Option StreamEvent → World → World × ℕ
publish_to_subject s evt w = publish (snapshot_by_subject s w.broker) evt w

unfoldable pub publish_to_channel : String → Option StreamEvent → World → World × ℕ
publish_to_channel ch evt w = publish (snapshot_by_channel ch w.broker) evt w

unfoldable pub close_all : List Connection → String → World → World
close_all [] reason w = w
close_all (c ∷ cs) reason w = close_all cs reason (close c reason w)

unfoldable pub revoke_subject : ℕ → String → World → World × ℕ
revoke_subject s reason w =
    let cs = snapshot_by_subject s w.broker in (close_all cs reason w, length cs)

unfoldable pub begin_drain : World → World
begin_drain w =
    if w.broker.draining
    then w
    else let b = record (w.broker) { draining = true } in
      close_all (snapshot_all b) "drain" (record w { broker = b })

unfoldable pub stats : Broker → BrokerStats
stats b = record {
  connections = length b.conns;
  subjects = length b.by_subject;
  channels = length b.by_channel;
  dropped_slow_consumers = b.dropped_slow_consumers;
}

-- What wakes the `select` of `loop`, with what the writer answers (`true`: no error).
pub data Wake : Type 0 where
  context_done : Wake
  event_ready heartbeat_due : Bool → Wake

pub loop_event : Connection → Bool → List (Option StreamEvent) → World → World
loop_event c ok [] w = w
loop_event c ok (none ∷ queue) w = record w {
  cells = store c (record (w.cells c.addr) { queue = queue }) w.cells;
}
loop_event c ok (some evt ∷ queue) w =
    let cell = w.cells c.addr in
    if ok
    then record w {
      cells = store c (record cell { queue = queue; written = cell.written ++ evt ∷ [] }) w.cells;
    }
    else close c "write_failed"
        (record w { cells = store c (record cell { queue = queue }) w.cells })

-- One round of `loop`; with an empty queue the `event_ready` case stays blocked.
unfoldable pub loop_step : Connection → Wake → World → World
unfolding loop_event
loop_step c wake w =
    if c.has_writer
    then elim wake [
      | context_done ↦ close c "context_done" w
      | event_ready ok ↦ loop_event c ok (w.cells c.addr).queue w
      | heartbeat_due ok ↦ if ok then w else close c "heartbeat_failed" w
    ]
    else close c "writer_missing" w
