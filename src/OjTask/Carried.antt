-- ===== src/OjTask/Carried.antt =====
-- ojTaskDispatcher.go: an attempt in which no call fails, from the claim to the stored result.
use personal_assistant.Base.{
  ℕ, nat_eq, ◌≡◌, refl, Bool, true, false, not, ◌||◌, ltb, ◌==◌, [], none, some, if◌then◌else◌,
  nat_key, arith,
}
use personal_assistant.Base.Text.{Text}
use personal_assistant.Base.Maps.{get, get-put, get-put_self}
use personal_assistant.Base.Result.{ok}
use personal_assistant.OjTask.Types.{
  executing, succeeded, task_succeeded, task_executing, Counts, Execution, Task, Db,
  is_dispatchable, Error,
}
use personal_assistant.OjTask.Build.{Reads, build_execution_snapshot}
use personal_assistant.OjTask.Dispatch.{
  put_execution, succeeded_execution, counts_of, put_task, with_status, executed, AttemptResult,
  DispatchRow, acquired, Calls, claim_execution, claimed_attempt, dispatch_single_execution,
}

-- The calls of an attempt in which none of them fails.
abbrev pub all_well : Reads → ℕ → ℕ → Calls
all_well reads claimed_at finished_at = record {
  row_read_fails = false;
  lock = acquired;
  claim_fails = false;
  claimed_at = claimed_at;
  task_read_fails = false;
  execution_read_fails = false;
  task_update_fails = false;
  pre_flight = none;
  reads = reads;
  persist = none;
  finished_at = finished_at;
  mark_execution_read_fails = false;
  mark_execution_update_fails = false;
  mark_task_read_fails = false;
  mark_task_update_fails = false;
}

module _ (text_of_error : Error → Text) (row : DispatchRow) (reads : Reads)
    (claimed_at finished_at : ℕ) (db : Db) (e : Execution) (task : Task) (counts : Counts) where
  -- The execution while the attempt runs.
  abbrev pub running : Execution
  running = record e { status = executing; started_at = some claimed_at }

  -- The execution and the task after it.
  abbrev pub carried_out : Execution
  carried_out = record e {
    status = succeeded;
    started_at = some claimed_at;
    finished_at = some finished_at;
    error_message = [];
    counts = counts;
  }

  abbrev pub done_task : Task
  done_task = record task {
    status = task_succeeded;
    updated_by = if ltb 0 e.requested_by then e.requested_by else task.updated_by;
  }

  -- The claim is won, and shows the execution as running; the attempt reports success; and after it the
  -- row of the execution and that of the task are the ones above, and all others are as they were.
  pub record IsCarriedOut (claim : Bool × Db) (result : AttemptResult × Db) : Type 0 where
    pub is_won : claim.0 ≡ true
    pub runs : get row.execution_id claim.1.executions ≡ some running
    pub says_executed : result.0 ≡ record { state = executed; err = none }
    pub executions_after :
        (id : ℕ)
        → get id result.1.executions
          ≡ (if row.execution_id == id then some carried_out else get id db.executions)
    pub tasks_after :
        (id : ℕ)
        → get id result.1.tasks ≡ (if row.task_id == id then some done_task else get id db.tasks)

  abbrev started_task : Task
  started_task = with_status task_executing e.requested_by task

  abbrev started : Db
  started = put_task row.task_id started_task (put_execution row.execution_id running db)

  abbrev ended : Db
  ended =
      put_task row.task_id (with_status task_succeeded e.requested_by started_task)
        (put_execution row.execution_id (succeeded_execution counts finished_at running) started)

  claim_lem :
      get row.execution_id db.executions ≡ some e
      → is_dispatchable e.status ≡ true
      → claim_execution row.execution_id claimed_at db
        ≡ (true, put_execution row.execution_id running db)
  unfolding claim_execution
  claim_lem found waits = rw (found, waits) refl

  run_lem :
      get row.task_id db.tasks ≡ some task
      → counts_of (build_execution_snapshot reads) ≡ ok counts
      → claimed_attempt text_of_error
          (all_well reads claimed_at finished_at)
          row
          (put_execution row.execution_id running db)
        ≡ (record { state = executed; err = none }, ended)
  unfolding claimed_attempt
  run_lem there built = rw (there, get-put_self row.execution_id running db.executions, built) refl

  ended_executions :
      (id : ℕ)
      → get id ended.executions
        ≡ (if row.execution_id == id then some carried_out else get id db.executions)
  ended_executions id = ground (
    arith,
    get-put row.execution_id id carried_out started.executions,
    get-put row.execution_id id running db.executions,
  )

  ended_tasks :
      (id : ℕ)
      → get id ended.tasks ≡ (if row.task_id == id then some done_task else get id db.tasks)
  ended_tasks id = ground (
    arith,
    get-put row.task_id id (with_status task_succeeded e.requested_by started_task) started.tasks,
    get-put row.task_id id started_task db.tasks,
    once (ltb 0 e.requested_by) e.requested_by task.updated_by,
  )
    where
      once :
          (b : Bool) (requester before : ℕ)
          → (if b then requester else if b then requester else before)
            ≡ (if b then requester else before)
      once b requester before = ground arith

  -- If no call of an attempt fails, its row has ids and a waiting status, the execution is
  -- there and waiting, the task exists and the snapshot can be built, then the claim is won and
  -- stores the execution as executing with the time of the claim; the attempt reports success;
  -- and after it the execution has succeeded, with the counters of the snapshot, the times of
  -- the claim and of the end and no error message, the task has succeeded, with the requester
  -- of the execution, if there is one, as the last to change it, and all else in the two tables
  -- is as it was, in these rows and in the others.
  pub waiting_succeeds :
      (nat_eq row.execution_id 0 || nat_eq row.task_id 0 || not (is_dispatchable row.status))
        ≡ false
      → get row.execution_id db.executions ≡ some e
      → is_dispatchable e.status ≡ true
      → get row.task_id db.tasks ≡ some task
      → counts_of (build_execution_snapshot reads) ≡ ok counts
      → IsCarriedOut
          (claim_execution row.execution_id claimed_at db)
          (dispatch_single_execution text_of_error (all_well reads claimed_at finished_at) row db)
  unfolding dispatch_single_execution
  waiting_succeeds valid found waits there built =
      rw (valid, claim_lem found waits, run_lem there built)
        (record {
          is_won = refl;
          runs = get-put_self row.execution_id running db.executions;
          says_executed = refl;
          executions_after = ended_executions;
          tasks_after = ended_tasks;
        })
