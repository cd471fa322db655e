-- ===== src/OjTask/Outcome.antt =====
-- ojTaskDispatcher.go: what an attempt leaves in the tables, and what it reports.
use personal_assistant.Base.{
  ℕ, ◌≡◌, refl, sym, ap, subst, Bool, true, false, Option, none, some, by_test, nat_key,
}
use personal_assistant.Base.Maps.{get, get-put_self}
use personal_assistant.Base.Text.{Text}
use personal_assistant.Base.Result.{Result, ok, err}
use personal_assistant.OjTask.Types.{
  succeeded, failed, task_executing, task_succeeded, task_failed, Counts, zero_counts, Execution,
  Task, Db, is_dispatchable, Error, db_error, task_not_found, execution_not_found,
}
use personal_assistant.OjTask.Dispatch.{
  snapshot_counts, AttemptState, executed, noop, terminal_failed, retryable_error, AttemptResult,
  DispatchRow, succeeded_execution, Calls, put_execution, put_task, with_status, failed_execution,
  failure_message, mark_task, mark_task_read, mark_found, mark_execution_failed, failed_attempt,
  fail_execution_attempt, persisted, persist_snapshot, snapshot_step, pre_flight_step, start_task,
  with_execution, with_task, claimed_attempt,
}

-- The execution is there, and the condition holds of it.
abbrev pub ExecutionIs : ℕ → Db → (Execution → Type 0) → Type 0
ExecutionIs id db Holds = (e : Execution) × (get id db.executions ≡ some e) × Holds e

abbrev pub IsClosed : Execution → Type 0
IsClosed e = is_dispatchable e.status ≡ false

abbrev pub IsFailed : ℕ → Execution → Type 0
IsFailed now e = (e.status ≡ failed) × (e.counts ≡ zero_counts) × (e.finished_at ≡ some now)

abbrev pub IsFailedTask : Option Task → Type 0
IsFailedTask none = Unit
IsFailedTask (some task) = task.status ≡ task_failed

abbrev pub IsSucceededTask : Option Task → Type 0
IsSucceededTask none = Unit
IsSucceededTask (some task) = task.status ≡ task_succeeded

-- A retryable error comes with an error.
abbrev told_error : AttemptState → Option Error → Bool
told_error retryable_error none = false
told_error retryable_error (some problem) = true
told_error executed problem = true
told_error noop problem = true
told_error terminal_failed problem = true

abbrev pub Told : AttemptResult → Type 0
Told result = told_error result.state result.err ≡ true

module _ (text_of_error : Error → Text) (calls : Calls) (row : DispatchRow) where
  abbrev pub HasSucceeded : Db → Type 0
  HasSucceeded after =
      ExecutionIs row.execution_id after (λ e.
        (e.status ≡ succeeded)
        × (snapshot_counts calls ≡ ok e.counts)
        × (e.finished_at ≡ some calls.finished_at))
      × IsSucceededTask (get row.task_id after.tasks)

  abbrev pub HasFailed : Db → Type 0
  HasFailed after =
      ExecutionIs row.execution_id after (IsFailed calls.finished_at)
      × IsFailedTask (get row.task_id after.tasks)

  -- How the attempt ends once the execution is claimed.
  abbrev pub Ends : AttemptState → Db → Type 0
  Ends executed after = HasSucceeded after
  Ends noop after = ⊥
  Ends terminal_failed after = HasFailed after
  Ends retryable_error after = ExecutionIs row.execution_id after IsClosed

  abbrev EndsAs : AttemptResult × Db → Type 0
  EndsAs step = Ends step.0.state step.1 × Told step.0

  abbrev Marked : Bool × Db → Type 0
  Marked (true, after) = ExecutionIs row.execution_id after IsClosed
  Marked (false, after) = HasFailed after

  failed-IsClosed :
      (db : Db)
      → ExecutionIs row.execution_id db (IsFailed calls.finished_at)
      → ExecutionIs row.execution_id db IsClosed
  failed-IsClosed db (e, found, fails) = (e, found, ap is_dispatchable fails.0)

  mark_task-Marked :
      (requested_by : ℕ) (db : Db) (task : Option Task)
      → get row.task_id db.tasks ≡ task
      → ExecutionIs row.execution_id db (IsFailed calls.finished_at)
      → Marked (mark_task text_of_error calls row.task_id requested_by db task)
  mark_task-Marked requested_by db none q h = (h, subst IsFailedTask (sym q) tt)
  mark_task-Marked requested_by db (some task) q h =
      by_test Marked calls.mark_task_update_fails (true, db) _ (λ _. failed-IsClosed db h)
        (λ _. (
          h,
          subst IsFailedTask
              (sym (get-put_self row.task_id (with_status task_failed requested_by task) db.tasks))
              refl,
        ))

  mark_task_read-Marked :
      (requested_by : ℕ) (db : Db)
      → ExecutionIs row.execution_id db (IsFailed calls.finished_at)
      → Marked (mark_task_read text_of_error calls row.task_id requested_by db)
  mark_task_read-Marked requested_by db h =
      by_test Marked calls.mark_task_read_fails (true, db) _ (λ _. failed-IsClosed db h)
        (λ _. mark_task-Marked requested_by db (get row.task_id db.tasks) refl h)

  mark_found-Marked :
      (cause : Error) (db : Db)
      → ExecutionIs row.execution_id db IsClosed
      → Marked (
          mark_found text_of_error calls row.task_id row.execution_id cause db
            (get row.execution_id db.executions))
  mark_found-Marked cause db (e, found, closed) =
      subst (λ o. Marked (mark_found text_of_error calls row.task_id row.execution_id cause db o))
        (sym found)
        (by_test Marked calls.mark_execution_update_fails (true, db) _ (λ _. (e, found, closed))
          (λ _.
            mark_task_read-Marked e.requested_by (put_execution row.execution_id (marked e) db) (
              marked e,
              get-put_self row.execution_id (marked e) db.executions,
              (refl, refl, refl),
            )))
    where
      marked : Execution → Execution
      marked e = failed_execution (failure_message text_of_error calls cause) calls.finished_at e

  fail-Ends :
      (cause : Error) (db : Db)
      → ExecutionIs row.execution_id db IsClosed
      → EndsAs (fail_execution_attempt text_of_error calls row.task_id row.execution_id cause db)
  unfolding fail_execution_attempt mark_execution_failed
  fail-Ends cause db h = reported cause _ (
      by_test Marked calls.mark_execution_read_fails (true, db) _ (λ _. h)
        (λ _. mark_found-Marked cause db h))
    where
      reported :
          (cause : Error) (step : Bool × Db)
          → Marked step
          → EndsAs (failed_attempt text_of_error calls cause step)
      reported cause (true, after) h = (h, refl)
      reported cause (false, after) h = (h, refl)

  persisted-HasSucceeded :
      (e : Execution) (task : Task) (counts : Counts) (db : Db)
      → snapshot_counts calls ≡ ok counts
      → HasSucceeded (persisted text_of_error calls row.execution_id e row.task_id task counts db)
  persisted-HasSucceeded e task counts db q = (
    (
      succeeded_execution counts calls.finished_at e,
      get-put_self row.execution_id _ db.executions,
      (refl, q, refl),
    ),
    subst IsSucceededTask
        (sym (get-put_self row.task_id (with_status task_succeeded e.requested_by task) db.tasks))
        refl,
  )

  persist-Ends :
      (e : Execution) (task : Task) (counts : Counts) (db : Db) (answer : Option Error)
      → snapshot_counts calls ≡ ok counts
      → ExecutionIs row.execution_id db IsClosed
      → EndsAs (persist_snapshot text_of_error calls row e task counts db answer)
  persist-Ends e task counts db (some cause) q h = fail-Ends cause db h
  persist-Ends e task counts db none q h = (persisted-HasSucceeded e task counts db q, refl)

  snapshot-Ends :
      (e : Execution) (task : Task) (db : Db) (answer : Result Error Counts)
      → snapshot_counts calls ≡ answer
      → ExecutionIs row.execution_id db IsClosed
      → EndsAs (snapshot_step text_of_error calls row e task db answer)
  snapshot-Ends e task db (err cause) q h = fail-Ends cause db h
  snapshot-Ends e task db (ok counts) q h = persist-Ends e task counts db calls.persist q h

  pre_flight-Ends :
      (e : Execution) (task : Task) (db : Db) (answer : Option Error)
      → ExecutionIs row.execution_id db IsClosed
      → EndsAs (pre_flight_step text_of_error calls row e task db answer)
  pre_flight-Ends e task db (some cause) h = fail-Ends cause db h
  pre_flight-Ends e task db none h = snapshot-Ends e task db (snapshot_counts calls) refl h

  start_task-Ends :
      (e : Execution) (task : Task) (db : Db)
      → ExecutionIs row.execution_id db IsClosed
      → EndsAs (start_task text_of_error calls row e task db)
  start_task-Ends e task db h =
      by_test EndsAs calls.task_update_fails
        (fail_execution_attempt text_of_error calls row.task_id row.execution_id db_error db) _
        (λ _. fail-Ends db_error db h)
        (λ _. pre_flight-Ends e task (put_task row.task_id task db) calls.pre_flight h)

  with_execution-Ends :
      (task : Task) (db : Db) (found : Option Execution)
      → ExecutionIs row.execution_id db IsClosed
      → EndsAs (with_execution text_of_error calls row task db found)
  with_execution-Ends task db none h = fail-Ends execution_not_found db h
  with_execution-Ends task db (some e) h =
      start_task-Ends e (with_status task_executing e.requested_by task) db h

  with_task-Ends :
      (db : Db) (found : Option Task)
      → ExecutionIs row.execution_id db IsClosed
      → EndsAs (with_task text_of_error calls row db found)
  with_task-Ends db none h = fail-Ends task_not_found db h
  with_task-Ends db (some task) h =
      by_test EndsAs calls.execution_read_fails
        (fail_execution_attempt text_of_error calls row.task_id row.execution_id db_error db) _
        (λ _. fail-Ends db_error db h)
        (λ _. with_execution-Ends task db (get row.execution_id db.executions) h)

  pub claimed-Ends :
      (db : Db)
      → ExecutionIs row.execution_id db IsClosed
      → EndsAs (claimed_attempt text_of_error calls row db)
  unfolding claimed_attempt
  claimed-Ends db h =
      by_test EndsAs calls.task_read_fails
        (fail_execution_attempt text_of_error calls row.task_id row.execution_id db_error db) _
        (λ _. fail-Ends db_error db h) (λ _. with_task-Ends db (get row.task_id db.tasks) h)
