-- ===== src/Sse/Connection.antt =====
-- internal/infrastructure/sse/connection.go. A `Connection` is the pointer with the fields that no
-- method writes; a `Cell` holds what its methods change, found by the address. The event loop is one
-- `loop_step` for each wake-up of its `select`, with the writer's answer as an argument.
use personal_assistant.Base.{
  ℕ, Bool, true, false, String, Option, List, [], ◌∷◌, ◌++◌, ltb, nat_eq, if◌then◌else◌, length,
}
use personal_assistant.Base.Int.{pos_part}
use personal_assistant.Sse.Types.{StreamEvent, ConnectionPolicy, Principal, normalize}

pub record Connection : Type 0 where
  pub addr : ℕ
  pub id : String
  pub principal : Option Principal
  pub channel : String
  pub has_writer : Bool
  pub policy : ConnectionPolicy

pub record Cell : Type 0 where
  pub queue : List (Option StreamEvent)
  pub written : List StreamEvent
  pub close_reason : String
  pub cancelled : Bool
  pub closed : Bool
  pub has_on_close : Bool
  pub started : Bool

abbrev pub Cells : Type 0
Cells = ℕ → Cell

-- *c = cell
abbrev pub store : Connection → Cell → Cells → Cells
store c cell cells a = if nat_eq c.addr a then cell else cells a

abbrev fresh_cell : Cell
fresh_cell = record {
  queue = [];
  written = [];
  close_reason = "";
  cancelled = false;
  closed = false;
  has_on_close = false;
  started = false;
}

-- The address is the one that the allocator chose.
unfoldable pub new_connection :
    ℕ → String → Option Principal → String → Bool → ConnectionPolicy → Cells → Connection × Cells
new_connection addr id principal channel has_writer policy cells =
    (conn, store conn fresh_cell cells)
  where
    conn : Connection
    conn = record {
      addr = addr;
      id = id;
      principal = principal;
      channel = channel;
      has_writer = has_writer;
      policy = normalize policy;
    }

unfoldable pub start : Connection → Cells → Cells
start c cells = store c (record (cells c.addr) { started = true }) cells

unfoldable pub enqueue : Connection → Option StreamEvent → Cells → Cells × Bool
enqueue c evt cells =
    if cell.closed
    then (cells, false)
    else if ltb (length cell.queue) (pos_part c.policy.queue_capacity)
    then (store c (record cell { queue = cell.queue ++ evt ∷ [] }) cells, true)
    else (cells, false)
  where
    cell : Cell
    cell = cells c.addr

-- The body of `closeOnce` before the callback; the flag says whether it ran in this call.
unfoldable pub mark_closed : Connection → String → Cells → Cells × Bool
mark_closed c reason cells = if cell.closed then (cells, false) else (
  store c (record cell { close_reason = reason; cancelled = true; closed = true }) cells,
  true,
)
  where
    cell : Cell
    cell = cells c.addr

unfoldable pub close_reason_of : Connection → Cells → String
close_reason_of c cells = (cells c.addr).close_reason
