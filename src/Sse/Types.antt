-- ===== src/Sse/Types.antt =====
-- internal/infrastructure/sse/types.go: events, principals and the connection policy.
-- Durations are counted in nanoseconds; Go's `int` and `Duration` are signed.
use personal_assistant.Base.{ℕ, Bool, String, List, if◌then◌else◌, ◌==◌, string_key}
use personal_assistant.Base.Maps.{Map}
use personal_assistant.Base.Int.{ℤ, pos, leb_ℤ}

pub data StreamKind : Type 0 where
  session channel : StreamKind

pub record StreamEvent : Type 0 where
  pub event_id : String
  pub stream_kind : StreamKind
  pub channel : String
  pub tenant_id : ℕ
  pub subject_id : ℕ
  pub event_name : String
  pub payload : List ℕ
  pub occurred_at : ℤ
  pub retry_ms : ℤ
  pub durable : Bool
  pub request_id : String
  pub trace_id : String
  pub meta : Map String String

pub record ConnectionPolicy : Type 0 where
  pub heartbeat_interval : ℤ
  pub write_timeout : ℤ
  pub queue_capacity : ℤ
  pub max_connections_per_subject : ℤ
  pub replay_limit : ℤ
  pub idle_kick_policy : String

abbrev pub idle_kick_disconnect_slow_consumer : String
idle_kick_disconnect_slow_consumer = "disconnect_slow_consumer"

abbrev or_default : ℤ → ℕ → ℤ
or_default n d = if leb_ℤ n (pos 0) then pos d else n

unfoldable pub normalize : ConnectionPolicy → ConnectionPolicy
normalize p = record {
  heartbeat_interval = or_default p.heartbeat_interval 20_000_000_000;
  write_timeout = or_default p.write_timeout 10_000_000_000;
  queue_capacity = or_default p.queue_capacity 64;
  max_connections_per_subject = or_default p.max_connections_per_subject 3;
  replay_limit = or_default p.replay_limit 100;
  idle_kick_policy =
      if p.idle_kick_policy == "" then idle_kick_disconnect_slow_consumer else p.idle_kick_policy;
}

pub record Principal : Type 0 where
  pub user_id : ℕ
  pub subject_id : ℕ
  pub tenant_id : ℕ
  pub org_id : ℕ
  pub origin : String
  pub scopes : List String
  pub meta : Map String String

pub record BrokerStats : Type 0 where
  pub connections : ℕ
  pub subjects : ℕ
  pub channels : ℕ
  pub dropped_slow_consumers : ℕ
