-- ===== src/OjTask/Types.antt =====
-- internal/model/entity/ojTask.go and internal/model/consts/ojTask.go: the rows that the dispatcher reads
-- and writes, as far as it does.
use personal_assistant.Base.{ℕ, Bool, true, false, Option}
use personal_assistant.Base.Maps.{Map}
use personal_assistant.Base.Text.{Text}

pub data ExecutionStatus : Type 0 where
  scheduled queued executing succeeded failed cancelled : ExecutionStatus

pub data TaskStatus : Type 0 where
  task_scheduled task_queued task_executing task_succeeded task_failed task_deleted : TaskStatus

-- OJTaskMode
pub data Mode : Type 0 where
  immediate deferred : Mode

-- OJTaskExecutionTriggerType
pub data TriggerType : Type 0 where
  create_immediate schedule_due by_execute_now by_retry : TriggerType

-- The six counters of an execution.
pub record Counts : Type 0 where
  pub total_user_count : ℕ
  pub completed_user_count : ℕ
  pub pending_user_count : ℕ
  pub total_item_count : ℕ
  pub completed_item_count : ℕ
  pub pending_item_count : ℕ

abbrev pub zero_counts : Counts
zero_counts = record {
  total_user_count = 0;
  completed_user_count = 0;
  pending_user_count = 0;
  total_item_count = 0;
  completed_item_count = 0;
  pending_item_count = 0;
}

pub record Execution : Type 0 where
  pub task_id : ℕ
  pub trigger_type : TriggerType
  pub planned_at : ℕ
  pub started_at : Option ℕ
  pub finished_at : Option ℕ
  pub requested_by : ℕ
  pub status : ExecutionStatus
  pub error_message : Text
  pub counts : Counts

pub record Task : Type 0 where
  pub root_task_id : Option ℕ
  pub parent_task_id : Option ℕ
  pub version_no : ℕ
  pub title : Text
  pub description : Text
  pub mode : Mode
  pub execute_at : Option ℕ
  pub created_by : ℕ
  pub status : TaskStatus
  pub updated_by : ℕ

-- The two tables, by primary key.
pub record Db : Type 0 where
  pub executions : Map ℕ Execution
  pub tasks : Map ℕ Task

-- isDispatchableOJTaskExecutionStatus
abbrev pub is_dispatchable : ExecutionStatus → Bool
is_dispatchable scheduled = true
is_dispatchable queued = true
is_dispatchable executing = false
is_dispatchable succeeded = false
is_dispatchable failed = false
is_dispatchable cancelled = false

-- Errors with their codes; `business` is any error that a check returns, by its text.
pub data Error : Type 0 where
  db_error redis_error task_not_found execution_not_found : Error
  invalid_params execute_at_invalid org_not_found already_deleted not_editable internal_error :
      Error
  question_ambiguous : Error
  business : Text → Error
  user_missing : ℕ → Error
  joined : Error → Error → Error
