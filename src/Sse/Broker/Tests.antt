-- ===== src/Sse/Broker/Tests.antt =====
-- A broker with one connection of subject 7, and the theorems at it.
use personal_assistant.Base.{
  ℕ, ◌≡◌, refl, true, false, none, some, [], ◌∷◌, nat_key, string_key, arith,
}
use personal_assistant.Base.Maps.{get, put}
use personal_assistant.Base.Int.{pos}
use personal_assistant.Base.Buckets.{entry, add_entry}
use personal_assistant.Sse.Types.{ConnectionPolicy, StreamEvent, StreamKind, Principal, normalize}
use personal_assistant.Sse.Connection.{Connection, Cell, start}
use personal_assistant.Sse.Broker.{
  World, new_broker, subject_key, is_full, index, register, publish, revoke_subject, begin_drain,
}
use personal_assistant.Sse.Broker.Indexed.{Indexed}
use personal_assistant.Sse.Broker.Live.{Live, Registered}
use personal_assistant.Sse.Broker.Lifecycle.{IsNew}
use personal_assistant.Sse.Broker.Methods.{registers, step}
use personal_assistant.Sse.Broker.Drained.{IsDrained, run}
use personal_assistant.Sse.Broker.Reach.{Reach, starts, calls, Reach-invariant, drain_is_final}
use personal_assistant.Sse.Broker.Shutdown.{revoke_subject_exact}
use personal_assistant.Sse.Broker.Publish.{publish_exact}
use personal_assistant.Sse.Broker.Collision.{register_same_id}

abbrev defaults : ConnectionPolicy
defaults = record {
  heartbeat_interval = pos 0;
  write_timeout = pos 0;
  queue_capacity = pos 1;
  max_connections_per_subject = pos 0;
  replay_limit = pos 0;
  idle_kick_policy = "";
}

abbrev anna : Principal
anna = record {
  user_id = 7;
  subject_id = 7;
  tenant_id = 1;
  org_id = 1;
  origin = "";
  scopes = [];
  meta = [];
}

abbrev connection : ℕ → Connection
connection addr = record {
  addr = addr;
  id = "tab";
  principal = some anna;
  channel = "news";
  has_writer = true;
  policy = defaults;
}

abbrev empty_cell : Cell
empty_cell = record {
  queue = [];
  written = [];
  close_reason = "";
  cancelled = false;
  closed = false;
  has_on_close = false;
  started = false;
}

abbrev idle_world : World
idle_world = record { broker = new_broker defaults; cells = λ a. empty_cell }

abbrev one_tab : World
one_tab = step idle_world (registers (connection 1))

connection-IsNew : IsNew (connection 1) idle_world
unfolding new_broker get
connection-IsNew = record { new_id = refl; new_addr = λ d q. absurd (cc); unclosed = refl }

one_tab_reached : Reach defaults one_tab
one_tab_reached =
    calls idle_world (registers (connection 1)) connection-IsNew (starts (λ a. empty_cell))

Reach-invariant_example : Indexed one_tab.broker × Live one_tab
Reach-invariant_example = Reach-invariant one_tab_reached

one_tab-draining : one_tab.broker.draining ≡ false
unfolding step register new_broker is_full subject_key index normalize get
one_tab-draining = refl

one_tab-Registered : Registered (connection 1) one_tab.broker
unfolding step register new_broker is_full subject_key index normalize get put
one_tab-Registered = refl

drain_is_final_example : IsDrained (run (begin_drain one_tab) (registers (connection 2) ∷ []))
drain_is_final_example =
    (drain_is_final one_tab_reached one_tab-draining).0 (registers (connection 2) ∷ [])

revoke_subject_exact_example :
    entry 7 "tab" (revoke_subject 7 "signed out" one_tab).0.broker.by_subject ≡ none
revoke_subject_exact_example =
    (revoke_subject_exact one_tab 7 "signed out" Reach-invariant_example.0
        Reach-invariant_example.1).1
      "tab"

abbrev notice : StreamEvent
notice = record {
  event_id = "1";
  stream_kind = StreamKind.channel;
  channel = "news";
  tenant_id = 1;
  subject_id = 7;
  event_name = "notice";
  payload = [];
  occurred_at = pos 0;
  retry_ms = pos 0;
  durable = false;
  request_id = "";
  trace_id = "";
  meta = [];
}

publish_exact_example : (publish (connection 1 ∷ []) (some notice) one_tab).1 ≡ 1
unfolding step register new_broker is_full subject_key index normalize get put start
publish_exact_example =
    (publish_exact (connection 1 ∷ []) notice one_tab Reach-invariant_example.1 (tt, tt)).0

register_same_id_example :
    get "tab" (register (some (connection 2)) one_tab).0.broker.conns ≡ some (connection 2)
unfolding step register new_broker is_full subject_key index normalize get put add_entry
register_same_id_example =
    (register_same_id (connection 1) (connection 2) 7 one_tab Reach-invariant_example.0
      Reach-invariant_example.1 one_tab-Registered refl refl refl (omega arith) one_tab-draining
      refl "gone").0
