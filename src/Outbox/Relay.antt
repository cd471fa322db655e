-- ===== src/Outbox/Relay.antt =====
-- internal/infrastructure/outbox/processor.go: one run of the relay. The lock, the read, the
-- publisher and the marking are outcomes given from outside; the messages that the publisher took are
-- logged. Contexts, spans and the trace metadata are left out.
use personal_assistant.Base.{
  ℕ, Bool, true, false, String, List, [], ◌∷◌, ◌++◌, Option, none, some, if◌then◌else◌,
}
use personal_assistant.Outbox.Table.{
  Row, Table, Assignment, get_pending_events, mark_as_published, mark_as_failed,
}

pub record Relay : Type 0 where
  pub batch_size : ℕ
  pub max_retries : ℕ
  pub lock_enabled : Bool
  pub assignment : Assignment

pub data LockAnswer : Type 0 where
  taken contended broken : LockAnswer

pub data ProcessError : Type 0 where
  lock_failed read_failed : ProcessError

pub record Message : Type 0 where
  pub id : String
  pub topic : String
  pub payload : String
  pub occurred_at : ℕ
  pub aggregate_id : String
  pub aggregate_type : String

-- What happens to one event: the publisher's error, whether the row is marked, and when.
pub record Attempt : Type 0 where
  pub publish_error : Option String
  pub marks : Bool
  pub at : ℕ

pub record Outbox : Type 0 where
  pub table : Table
  pub sent : List Message

abbrev pub message_of : Row → Message
message_of event = record {
  id = event.event_id;
  topic = event.event_type;
  payload = event.payload;
  occurred_at = event.created_at;
  aggregate_id = event.aggregate_id;
  aggregate_type = event.aggregate_type;
}

abbrev pub marked : Bool → Table → Table → Table
marked marks new old = if marks then new else old

abbrev pub relay_with : Relay → Row → Bool → ℕ → Option String → Outbox → Outbox
relay_with relay event marks at (some message) box = record box {
  table =
      marked marks
        (mark_as_failed relay.assignment relay.max_retries at event.event_id message box.table)
        box.table;
}
relay_with relay event marks at none box = record {
  table = marked marks (mark_as_published at event.event_id box.table) box.table;
  sent = box.sent ++ message_of event ∷ [];
}

unfoldable pub relay_event : Relay → (String → Attempt) → Row → Outbox → Outbox
relay_event relay attempts event =
    let attempt = attempts event.event_id in
    relay_with relay event attempt.marks attempt.at attempt.publish_error

unfoldable pub relay_all : Relay → (String → Attempt) → Table → Outbox → Outbox
relay_all relay attempts [] box = box
relay_all relay attempts (event ∷ events) box =
    relay_all relay attempts events (relay_event relay attempts event box)

abbrev pub process_read : Relay → Bool → (String → Attempt) → Outbox → Outbox × Option ProcessError
process_read relay false attempts box = (box, some read_failed)
process_read relay true attempts box = (
  relay_all relay attempts (get_pending_events relay.batch_size relay.max_retries box.table) box,
  none,
)

abbrev pub process_locked :
    Relay → LockAnswer → Bool → (String → Attempt) → Outbox → Outbox × Option ProcessError
process_locked relay taken reads attempts box = process_read relay reads attempts box
process_locked relay contended reads attempts box = (box, none)
process_locked relay broken reads attempts box = (box, some lock_failed)

unfoldable pub process :
    Relay → LockAnswer → Bool → (String → Attempt) → Outbox → Outbox × Option ProcessError
process relay lock reads attempts box =
    if relay.lock_enabled
    then process_locked relay lock reads attempts box
    else process_read relay reads attempts box
