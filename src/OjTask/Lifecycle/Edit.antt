-- ===== src/OjTask/Lifecycle/Edit.antt =====
-- ojTaskSvc.go: the operations on a task that is still planned (UpdateTask, DeleteTask, ExecuteTaskNow).
use personal_assistant.Base.{
  ℕ, Bool, true, false, not, ◌&&◌, List, [], ◌++◌, Option, none, some, if◌then◌else◌, nat_key,
}
use personal_assistant.Base.Maps.{get}
use personal_assistant.Base.Result.{Result, ok, err, ◌>>=◌, ◌>>◌}
use personal_assistant.OjTask.Build.{normalize_uint_slice}
use personal_assistant.OjTask.Types.{
  Error, execute_at_invalid, task_not_found, execution_not_found, not_editable, Mode, immediate,
  deferred, by_execute_now, ExecutionStatus, scheduled, queued, executing, succeeded, failed,
  cancelled, TaskStatus, task_scheduled, task_queued, task_executing, task_succeeded, task_failed,
  task_deleted, already_deleted, zero_counts, Execution, Task,
}
use personal_assistant.OjTask.Lifecycle.Draft.{TaskReq, DraftItem, DraftOf, validate_draft}
use personal_assistant.OjTask.Lifecycle.Materialize.{materialize_draft}
use personal_assistant.OjTask.Lifecycle.Store.{
  Store, Outside, read_task, read_execution, read_orgs, write_task, write_orgs, write_items,
  write_intakes, write_execution, call, find_by_task, authorize_manage_org_ids, task_org_ids,
  publish_queued_execution_trigger, put_rows, put_pair, settled,
}
use personal_assistant.OjTask.Lifecycle.Create.{CreateResp}

pub record Editable : Type 0 where
  pub task : Task
  pub execution_id : ℕ
  pub execution : Execution
  pub org_ids : List ℕ

abbrev pub is_deferred : Mode → Bool
is_deferred immediate = false
is_deferred deferred = true

abbrev pub is_planned_task : TaskStatus → Bool
is_planned_task task_scheduled = true
is_planned_task task_queued = false
is_planned_task task_executing = false
is_planned_task task_succeeded = false
is_planned_task task_failed = false
is_planned_task task_deleted = false

abbrev pub is_deleted_task : TaskStatus → Bool
is_deleted_task task_scheduled = false
is_deleted_task task_queued = false
is_deleted_task task_executing = false
is_deleted_task task_succeeded = false
is_deleted_task task_failed = false
is_deleted_task task_deleted = true

abbrev pub is_planned_execution : ExecutionStatus → Bool
is_planned_execution scheduled = true
is_planned_execution queued = false
is_planned_execution executing = false
is_planned_execution succeeded = false
is_planned_execution failed = false
is_planned_execution cancelled = false

abbrev pub is_editable : Task → Execution → Bool
is_editable task execution =
    is_deferred task.mode && is_planned_task task.status && is_planned_execution execution.status

-- merged and normalized, as mergeUintSlices does
abbrev pub merge_uint_slices : List ℕ → List ℕ → List ℕ
merge_uint_slices left right = normalize_uint_slice (left ++ right)

abbrev pub the_execute_at : Option ℕ → Result Error ℕ
the_execute_at none = err execute_at_invalid
the_execute_at (some at) = ok at

abbrev pub updated_task : ℕ → DraftOf DraftItem → Task → Task
updated_task operator draft task = record task {
  title = draft.title;
  description = draft.description;
  execute_at = draft.execute_at;
  updated_by = operator;
}

abbrev pub updated_execution : ℕ → ℕ → Execution → Execution
updated_execution operator at execution = record execution {
  planned_at = at;
  requested_by = operator;
}

abbrev pub deleted_task : ℕ → Task → Task
deleted_task operator task = record task { status = task_deleted; updated_by = operator }

abbrev pub queued_task : ℕ → Task → Task
queued_task operator task = record task { status = task_queued; updated_by = operator }

module _ (outside : Outside) where
  abbrev pub editable_pair : ℕ → Task → Store → Option (ℕ × Execution) → Result Error Editable
  editable_pair task_id task store none = err execution_not_found
  editable_pair task_id task store (some (id, execution)) =
      if not (is_editable task execution)
      then err not_editable
      else (call outside read_orgs
          >> ok (record {
            task = task;
            execution_id = id;
            execution = execution;
            org_ids = task_org_ids task_id store;
          }))

  abbrev pub editable_task : ℕ → Store → Option Task → Result Error Editable
  editable_task task_id store none = err task_not_found
  editable_task task_id store (some task) =
      if is_deleted_task task.status
      then err already_deleted
      else (call outside read_execution
          >> editable_pair task_id task store (find_by_task task_id store.db.executions))

  unfoldable pub load_editable_scheduled_task : ℕ → Store → Result Error Editable
  load_editable_scheduled_task task_id store =
      call outside read_task >> editable_task task_id store (get task_id store.db.tasks)

  abbrev pub cancelled_execution : Execution → Execution
  cancelled_execution execution = record execution {
    status = cancelled;
    finished_at = some outside.now;
    error_message = [];
  }

  abbrev pub queued_execution : ℕ → Execution → Execution
  queued_execution operator execution = record execution {
    status = queued;
    trigger_type = by_execute_now;
    planned_at = outside.now;
    requested_by = operator;
    started_at = none;
    finished_at = none;
    error_message = [];
    counts = zero_counts;
  }

  unfoldable pub update_task : ℕ → ℕ → TaskReq → Store → Result Error (Unit {0}) × Store
  update_task operator task_id req store = settled outside store do
    draft ← validate_draft outside.org outside.now req
    found ← load_editable_scheduled_task task_id store
    authorize_manage_org_ids outside operator (merge_uint_slices found.org_ids draft.org_ids)
    at ← the_execute_at draft.execute_at
    materialized ← materialize_draft outside.questions draft
    call outside write_task
    call outside write_orgs
    call outside write_items
    call outside write_intakes
    call outside write_execution
    ok (
      tt,
      put_rows outside task_id materialized.org_ids materialized.items (
          put_pair found.execution_id task_id (updated_execution operator at found.execution)
            (updated_task operator materialized found.task) store),
    )

  unfoldable pub delete_task : ℕ → ℕ → Store → Result Error (Unit {0}) × Store
  delete_task operator task_id store = settled outside store do
    found ← load_editable_scheduled_task task_id store
    authorize_manage_org_ids outside operator found.org_ids
    call outside write_task
    call outside write_execution
    ok (
      tt,
      put_pair found.execution_id task_id (cancelled_execution found.execution)
          (deleted_task operator found.task) store,
    )

  unfoldable pub execute_task_now : ℕ → ℕ → Store → Result Error CreateResp × Store
  execute_task_now operator task_id store = settled outside store do
    found ← load_editable_scheduled_task task_id store
    authorize_manage_org_ids outside operator found.org_ids
    call outside write_task
    call outside write_execution
    after ← publish_queued_execution_trigger outside found.execution_id task_id (
        put_pair found.execution_id task_id (queued_execution operator found.execution)
          (queued_task operator found.task) store)
    ok (
      record { task_id = task_id; execution_id = found.execution_id; status = task_queued },
      after,
    )
