-- ===== src/OjTask/Dispatch.antt =====
-- ojTaskDispatcher.go: one attempt at an execution. Whether a call of the database, of the lock or of
-- the checks fails is given from outside for each call, so that every failure is covered.
use personal_assistant.Base.{
  ℕ, [], nat_eq, ltb, Bool, true, false, not, ◌||◌, Option, none, some, if◌then◌else◌, nat_key,
}
use personal_assistant.Base.Maps.{get, put}
use personal_assistant.Base.Text.{Text, lit, is_nil, trim_space}
use personal_assistant.Base.Result.{Result, ok, err}
use personal_assistant.OjTask.Snapshot.{Snapshot}
use personal_assistant.OjTask.Build.{Reads, build_execution_snapshot}
use personal_assistant.OjTask.Types.{
  Error, db_error, redis_error, task_not_found, execution_not_found, joined,
}
use personal_assistant.OjTask.Types.{
  ExecutionStatus, executing, succeeded, failed, TaskStatus, task_executing, task_succeeded,
  task_failed, Counts, zero_counts, Execution, Task, Db, is_dispatchable,
}

pub data AttemptState : Type 0 where
  executed noop terminal_failed retryable_error : AttemptState

pub record AttemptResult : Type 0 where
  pub state : AttemptState
  pub err : Option Error

pub record DispatchRow : Type 0 where
  pub execution_id : ℕ
  pub task_id : ℕ
  pub status : ExecutionStatus

pub data LockAnswer : Type 0 where
  acquired contended broken : LockAnswer

-- What becomes of the calls of an attempt. The later reads and writes are those of the marking.
pub record Calls : Type 0 where
  pub row_read_fails : Bool
  pub lock : LockAnswer
  pub claim_fails : Bool
  pub claimed_at : ℕ
  pub task_read_fails : Bool
  pub execution_read_fails : Bool
  pub task_update_fails : Bool
  pub pre_flight : Option Error
  pub reads : Reads
  pub persist : Option Error
  pub finished_at : ℕ
  pub mark_execution_read_fails : Bool
  pub mark_execution_update_fails : Bool
  pub mark_task_read_fails : Bool
  pub mark_task_update_fails : Bool

-- The counters of the snapshot that the reads make.
abbrev pub counts_of : Result Error Snapshot → Result Error Counts
counts_of (err cause) = err cause
counts_of (ok snapshot) = ok snapshot.counts

abbrev pub snapshot_counts : Calls → Result Error Counts
snapshot_counts calls = counts_of (build_execution_snapshot calls.reads)

abbrev pub put_execution : ℕ → Execution → Db → Db
put_execution id execution db = record {
  executions = put id execution db.executions;
  tasks = db.tasks;
}

abbrev pub put_task : ℕ → Task → Db → Db
put_task id task db = record { executions = db.executions; tasks = put id task db.tasks }

-- The row of the execution, if there is one and its status lets it be claimed.
abbrev pub claimable : Option Execution → Option Execution
claimable none = none
claimable (some execution) = if is_dispatchable execution.status then some execution else none

abbrev pub claim_found : ℕ → ℕ → Db → Option Execution → Bool × Db
claim_found id now db none = (false, db)
claim_found id now db (some execution) =
    (true, put_execution id (record execution { started_at = some now; status = executing }) db)

-- UPDATE … SET status = 'executing', started_at = now WHERE id = … AND status IN (…)
unfoldable pub claim_execution : ℕ → ℕ → Db → Bool × Db
claim_execution id now db = claim_found id now db (claimable (get id db.executions))

abbrev pub updated_by : ℕ → ℕ → ℕ
updated_by requested_by before = if ltb 0 requested_by then requested_by else before

abbrev pub with_status : TaskStatus → ℕ → Task → Task
with_status status requested_by task = record task {
  status = status;
  updated_by = updated_by requested_by task.updated_by;
}

abbrev pub or_now : Option ℕ → ℕ → Option ℕ
or_now none now = some now
or_now (some started) now = some started

abbrev pub failed_execution : Text → ℕ → Execution → Execution
failed_execution message now execution = record execution {
  started_at = or_now execution.started_at now;
  finished_at = some now;
  status = failed;
  error_message = message;
  counts = zero_counts;
}

abbrev pub succeeded_execution : Counts → ℕ → Execution → Execution
succeeded_execution counts now execution = record execution {
  finished_at = some now;
  status = succeeded;
  error_message = [];
  counts = counts;
}

abbrev pub requester : Option Execution → ℕ
requester none = 0
requester (some execution) = execution.requested_by

abbrev pub noop_result : AttemptResult
noop_result = record { state = noop; err = none }

abbrev pub retryable : Error → AttemptResult
retryable cause = record { state = retryable_error; err = some cause }

module _ (text_of_error : Error → Text) (calls : Calls) where
  abbrev pub failure_message : Error → Text
  failure_message cause =
      if is_nil (trim_space (text_of_error cause))
      then lit "oj task execution failed"
      else trim_space (text_of_error cause)

  -- The second half of the marking: whether it fails, and the tables.
  abbrev pub mark_task : ℕ → ℕ → Db → Option Task → Bool × Db
  mark_task task_id requested_by db none = (false, db)
  mark_task task_id requested_by db (some task) =
      if calls.mark_task_update_fails
      then (true, db)
      else (false, put_task task_id (with_status task_failed requested_by task) db)

  abbrev pub mark_task_read : ℕ → ℕ → Db → Bool × Db
  mark_task_read task_id requested_by db =
      if calls.mark_task_read_fails
      then (true, db)
      else mark_task task_id requested_by db (get task_id db.tasks)

  abbrev pub mark_found : ℕ → ℕ → Error → Db → Option Execution → Bool × Db
  mark_found task_id execution_id cause db none = mark_task_read task_id 0 db
  mark_found task_id execution_id cause db (some execution) =
      if calls.mark_execution_update_fails
      then (true, db)
      else mark_task_read task_id execution.requested_by (
          put_execution execution_id
            (failed_execution (failure_message cause) calls.finished_at execution) db)

  unfoldable pub mark_execution_failed : ℕ → ℕ → Error → Db → Bool × Db
  mark_execution_failed task_id execution_id cause db =
      if calls.mark_execution_read_fails
      then (true, db)
      else mark_found task_id execution_id cause db (get execution_id db.executions)

  abbrev pub failed_attempt : Error → Bool × Db → AttemptResult × Db
  failed_attempt cause (true, db) = (retryable (joined cause db_error), db)
  failed_attempt cause (false, db) = (record { state = terminal_failed; err = some cause }, db)

  unfoldable pub fail_execution_attempt : ℕ → ℕ → Error → Db → AttemptResult × Db
  fail_execution_attempt task_id execution_id cause db =
      failed_attempt cause (mark_execution_failed task_id execution_id cause db)

  abbrev pub persisted : ℕ → Execution → ℕ → Task → Counts → Db → Db
  persisted execution_id execution task_id task counts db =
      put_task task_id (with_status task_succeeded execution.requested_by task)
        (put_execution execution_id (succeeded_execution counts calls.finished_at execution) db)

  -- persistExecutionSnapshot: one transaction, which leaves nothing if it fails.
  abbrev pub persist_snapshot :
      DispatchRow → Execution → Task → Counts → Db → Option Error → AttemptResult × Db
  persist_snapshot row execution task counts db (some cause) =
      fail_execution_attempt row.task_id row.execution_id cause db
  persist_snapshot row execution task counts db none = (
    record { state = executed; err = none },
    persisted row.execution_id execution row.task_id task counts db,
  )

  abbrev pub snapshot_step :
      DispatchRow → Execution → Task → Db → Result Error Counts → AttemptResult × Db
  snapshot_step row execution task db (err cause) =
      fail_execution_attempt row.task_id row.execution_id cause db
  snapshot_step row execution task db (ok counts) =
      persist_snapshot row execution task counts db calls.persist

  abbrev pub pre_flight_step :
      DispatchRow → Execution → Task → Db → Option Error → AttemptResult × Db
  pre_flight_step row execution task db (some cause) =
      fail_execution_attempt row.task_id row.execution_id cause db
  pre_flight_step row execution task db none =
      snapshot_step row execution task db (snapshot_counts calls)

  -- From the update of the task on; `task` is the object in memory.
  abbrev pub start_task : DispatchRow → Execution → Task → Db → AttemptResult × Db
  start_task row execution task db =
      if calls.task_update_fails
      then fail_execution_attempt row.task_id row.execution_id db_error db
      else pre_flight_step row execution task (put_task row.task_id task db) calls.pre_flight

  abbrev pub with_execution : DispatchRow → Task → Db → Option Execution → AttemptResult × Db
  with_execution row task db none =
      fail_execution_attempt row.task_id row.execution_id execution_not_found db
  with_execution row task db (some execution) =
      start_task row execution (with_status task_executing execution.requested_by task) db

  abbrev pub read_execution : DispatchRow → Task → Db → AttemptResult × Db
  read_execution row task db =
      if calls.execution_read_fails
      then fail_execution_attempt row.task_id row.execution_id db_error db
      else with_execution row task db (get row.execution_id db.executions)

  abbrev pub with_task : DispatchRow → Db → Option Task → AttemptResult × Db
  with_task row db none = fail_execution_attempt row.task_id row.execution_id task_not_found db
  with_task row db (some task) = read_execution row task db

  unfoldable pub claimed_attempt : DispatchRow → Db → AttemptResult × Db
  claimed_attempt row db =
      if calls.task_read_fails
      then fail_execution_attempt row.task_id row.execution_id db_error db
      else with_task row db (get row.task_id db.tasks)

  abbrev pub after_claim : DispatchRow → Bool × Db → AttemptResult × Db
  after_claim row (false, db) = (noop_result, db)
  after_claim row (true, db) = claimed_attempt row db

  abbrev pub locked_attempt : DispatchRow → Db → LockAnswer → AttemptResult × Db
  locked_attempt row db broken = (retryable redis_error, db)
  locked_attempt row db contended = (noop_result, db)
  locked_attempt row db acquired =
      if calls.claim_fails
      then (retryable db_error, db)
      else after_claim row (claim_execution row.execution_id calls.claimed_at db)

  unfoldable pub dispatch_single_execution : DispatchRow → Db → AttemptResult × Db
  dispatch_single_execution row db =
      if nat_eq row.execution_id 0 || nat_eq row.task_id 0 || not (is_dispatchable row.status)
      then (noop_result, db)
      else locked_attempt row db calls.lock

  abbrev pub row_of : ℕ → Execution → DispatchRow
  row_of id execution = record {
    execution_id = id;
    task_id = execution.task_id;
    status = execution.status;
  }

  abbrev pub execute_found : ℕ → Db → Option Execution → AttemptResult × Db
  execute_found id db none = (noop_result, db)
  execute_found id db (some execution) = dispatch_single_execution (row_of id execution) db

  unfoldable pub execute_single_execution_by_id : ℕ → Db → AttemptResult × Db
  execute_single_execution_by_id id db =
      if nat_eq id 0
      then (noop_result, db)
      else if calls.row_read_fails
      then (retryable db_error, db)
      else execute_found id db (get id db.executions)

-- The errors that the dispatcher and the event's subscriber return for an attempt.
abbrev pub dispatch_error : AttemptState → Option Error → Option Error
dispatch_error terminal_failed problem = problem
dispatch_error retryable_error problem = problem
dispatch_error executed problem = none
dispatch_error noop problem = none

abbrev pub dispatch_attempt_result_error : AttemptResult → Option Error
dispatch_attempt_result_error result = dispatch_error result.state result.err

abbrev pub trigger_error : AttemptState → Option Error → Option Error
trigger_error retryable_error problem = problem
trigger_error terminal_failed problem = none
trigger_error executed problem = none
trigger_error noop problem = none

abbrev pub trigger_attempt_result_error : AttemptResult → Option Error
trigger_attempt_result_error result = trigger_error result.state result.err

-- What the subscriber gets; no error acknowledges the event.
unfoldable pub execute_execution_by_id : (Error → Text) → Calls → ℕ → Db → Option Error × Db
execute_execution_by_id text_of_error calls id db =
    let step = execute_single_execution_by_id text_of_error calls id db in
    (trigger_attempt_result_error step.0, step.1)
