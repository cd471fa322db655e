-- ===== src/OjTask/Lifecycle/Create.antt =====
-- ojTaskSvc.go: a new version of a task with its execution, in the transaction (createTaskVersionTx), and
-- the first version (CreateTask).
use personal_assistant.Base.{ℕ, Bool, true, false, [], Option, none, some, if◌then◌else◌, ltb}
use personal_assistant.Base.Result.{Result, ok, ◌>>=◌, ◌>>◌}
use personal_assistant.OjTask.Types.{
  Error, Mode, immediate, deferred, TriggerType, create_immediate, schedule_due, ExecutionStatus,
  scheduled, queued, TaskStatus, task_scheduled, task_queued, zero_counts, Execution, Task,
}
use personal_assistant.OjTask.Lifecycle.Draft.{TaskReq, DraftItem, DraftOf, validate_draft}
use personal_assistant.OjTask.Lifecycle.Materialize.{materialize_draft}
use personal_assistant.OjTask.Lifecycle.Store.{
  Store, Outside, write_task, write_root, write_orgs, write_items, write_intakes, write_execution,
  call, authorize_manage_org_ids, positive_root, publish_queued_execution_trigger, put_rows,
  put_pair, settled,
}

-- OJTaskCreateResp
pub record CreateResp : Type 0 where
  pub task_id : ℕ
  pub execution_id : ℕ
  pub status : TaskStatus

-- resolveExecutionTrigger
abbrev pub resolve_execution_trigger : Mode → TriggerType
resolve_execution_trigger immediate = create_immediate
resolve_execution_trigger deferred = schedule_due

abbrev pub first_task_status : Mode → TaskStatus
first_task_status immediate = task_queued
first_task_status deferred = task_scheduled

abbrev pub first_execution_status : Mode → ExecutionStatus
first_execution_status immediate = queued
first_execution_status deferred = scheduled

abbrev pub planned_at : ℕ → Mode → Option ℕ → ℕ
planned_at now immediate execute_at = now
planned_at now deferred none = now
planned_at now deferred (some at) = at

-- A root that is missing, or zero, is filled in with the task's own id.
abbrev pub needs_root : Option ℕ → Bool
needs_root none = true
needs_root (some root) = if ltb 0 root then false else true

module _ (outside : Outside) (root parent : Option ℕ) (version operator : ℕ) where
  abbrev pub new_task : DraftOf DraftItem → Task
  new_task draft = record {
    root_task_id = some (positive_root outside.new_task_id root);
    parent_task_id = parent;
    version_no = version;
    title = draft.title;
    description = draft.description;
    mode = draft.mode;
    execute_at = draft.execute_at;
    created_by = operator;
    status = first_task_status draft.mode;
    updated_by = operator;
  }

  abbrev pub new_execution : DraftOf DraftItem → TriggerType → Execution
  new_execution draft trigger = record {
    task_id = outside.new_task_id;
    trigger_type = trigger;
    planned_at = planned_at outside.now draft.mode draft.execute_at;
    started_at = none;
    finished_at = none;
    requested_by = operator;
    status = first_execution_status draft.mode;
    error_message = [];
    counts = zero_counts;
  }

  abbrev pub stored : DraftOf DraftItem → TriggerType → Store → Store
  stored draft trigger store = put_rows outside outside.new_task_id draft.org_ids draft.items (
      put_pair outside.new_execution_id outside.new_task_id (new_execution draft trigger)
        (new_task draft) store)

  abbrev pub publish_if_queued : Mode → Store → Result Error Store
  publish_if_queued deferred store = ok store
  publish_if_queued immediate store =
      publish_queued_execution_trigger outside outside.new_execution_id outside.new_task_id store

  abbrev pub created_resp : Mode → CreateResp
  created_resp mode = record {
    task_id = outside.new_task_id;
    execution_id = outside.new_execution_id;
    status = first_task_status mode;
  }

  unfoldable pub create_task_version :
      DraftOf DraftItem → TriggerType → Store → Result Error (CreateResp × Store)
  create_task_version draft trigger store = do
    call outside write_task
    if needs_root root then call outside write_root else ok tt
    call outside write_orgs
    call outside write_items
    call outside write_intakes
    call outside write_execution
    after ← publish_if_queued draft.mode (stored draft trigger store)
    ok (created_resp draft.mode, after)

unfoldable pub create_task : Outside → ℕ → TaskReq → Store → Result Error CreateResp × Store
create_task outside operator req store = settled outside store do
  draft ← validate_draft outside.org outside.now req
  authorize_manage_org_ids outside operator draft.org_ids
  materialized ← materialize_draft outside.questions draft
  create_task_version outside none none 1 operator materialized
      (resolve_execution_trigger draft.mode) store
