-- ===== src/OjTask/Lifecycle/Versions.antt =====
-- ojTaskSvc.go: new versions of a task (ReviseTask, RetryTask). The source is read before the
-- transaction; here nothing comes between.
use personal_assistant.Base.{
  ℕ, suc, nat_eq, ltb, Bool, true, false, ◌||◌, ◌&&◌, List, [], ◌∷◌, Option, none, some,
  if◌then◌else◌, ◌==◌, map, nat_key,
}
use personal_assistant.Base.Buckets.{or_empty}
use personal_assistant.Base.Maps.{get}
use personal_assistant.Base.Text.{Text, text_key}
use personal_assistant.Base.Result.{Result, ok, err, ◌>>=◌, ◌>>◌}
use personal_assistant.OjTask.Snapshot.{sort_by}
use personal_assistant.OjTask.Types.{
  Error, task_not_found, execution_not_found, already_deleted, not_editable, immediate, by_retry,
  ExecutionStatus, scheduled, queued, executing, succeeded, failed, cancelled, Execution, Task,
}
use personal_assistant.OjTask.Lifecycle.Draft.{TaskReq, DraftItem, DraftOf, validate_draft}
use personal_assistant.OjTask.Lifecycle.Materialize.{materialize_draft}
use personal_assistant.OjTask.Lifecycle.Store.{
  ItemRow, Store, Outside, read_task, read_execution, read_orgs, read_items, call, find_by_task,
  authorize_manage_org_ids, task_org_ids, next_version_no, effective_root_task_id, settled,
}
use personal_assistant.OjTask.Lifecycle.Create.{
  CreateResp, resolve_execution_trigger, create_task_version,
}
use personal_assistant.OjTask.Lifecycle.Edit.{is_deleted_task, merge_uint_slices}

pub record Source : Type 0 where
  pub task : Task
  pub execution : Option (ℕ × Execution)
  pub org_ids : List ℕ

abbrev pub is_ended : ExecutionStatus → Bool
is_ended scheduled = false
is_ended queued = false
is_ended executing = false
is_ended succeeded = true
is_ended failed = true
is_ended cancelled = false

-- Go's order of strings.
unfoldable pub text_before : Text → Text → Bool
text_before [] [] = false
text_before [] (y ∷ ys) = true
text_before (x ∷ xs) [] = false
text_before (x ∷ xs) (y ∷ ys) = ltb x y || nat_eq x y && text_before xs ys

-- The order of ListItemsByTaskID.
abbrev pub row_before : ItemRow → ItemRow → Bool
row_before a b =
    if nat_eq a.item.sort_no b.item.sort_no
    then ltb a.id b.id
    else ltb a.item.sort_no b.item.sort_no

-- The order of taskItemsToValidated.
abbrev pub draft_item_before : DraftItem → DraftItem → Bool
draft_item_before a b =
    if nat_eq a.sort_no b.sort_no
    then (if a.platform == b.platform
        then (if a.input_title == b.input_title
            then ltb a.resolved_question_id b.resolved_question_id
            else text_before a.input_title b.input_title)
        else text_before a.platform b.platform)
    else ltb a.sort_no b.sort_no

abbrev pub renumbered : ℕ → List DraftItem → List DraftItem
renumbered at [] = []
renumbered at (item ∷ items) = record item { sort_no = suc at } ∷ renumbered (suc at) items

unfoldable pub task_items_to_validated : List ItemRow → List DraftItem
task_items_to_validated rows = renumbered 0 (sort_by draft_item_before (map (λ row. row.item) rows))

abbrev pub not_deleted : Task → Result Error (Unit {0})
not_deleted task = if is_deleted_task task.status then err already_deleted else ok tt

abbrev pub the_execution : Option (ℕ × Execution) → Result Error Execution
the_execution none = err execution_not_found
the_execution (some (id, execution)) = ok execution

abbrev pub has_ended : Execution → Result Error (Unit {0})
has_ended execution = if is_ended execution.status then ok tt else err not_editable

-- The draft of a retry: what the source holds.
abbrev pub retry_draft : Task → List ℕ → List ItemRow → DraftOf DraftItem
retry_draft task org_ids rows = record {
  title = task.title;
  description = task.description;
  mode = immediate;
  execute_at = none;
  org_ids = org_ids;
  items = task_items_to_validated rows;
}

module _ (outside : Outside) where
  abbrev pub source_of : ℕ → Store → Option Task → Result Error Source
  source_of task_id store none = err task_not_found
  source_of task_id store (some task) =
      call outside read_execution
      >> (call outside read_orgs
          >> ok (record {
            task = task;
            execution = find_by_task task_id store.db.executions;
            org_ids = task_org_ids task_id store;
          }))

  unfoldable pub load_task_with_execution : ℕ → Store → Result Error Source
  load_task_with_execution task_id store =
      call outside read_task >> source_of task_id store (get task_id store.db.tasks)

  unfoldable pub revise_task : ℕ → ℕ → TaskReq → Store → Result Error CreateResp × Store
  revise_task operator task_id req store = settled outside store do
    draft ← validate_draft outside.org outside.now req
    source ← load_task_with_execution task_id store
    not_deleted source.task
    execution ← the_execution source.execution
    authorize_manage_org_ids outside operator (merge_uint_slices source.org_ids draft.org_ids)
    materialized ← materialize_draft outside.questions draft
    version ← next_version_no outside (effective_root_task_id task_id source.task) store
    create_task_version outside (some (effective_root_task_id task_id source.task)) (some task_id)
        version operator materialized (resolve_execution_trigger materialized.mode) store

  unfoldable pub retry_task : ℕ → ℕ → Store → Result Error CreateResp × Store
  retry_task operator task_id store = settled outside store do
    source ← load_task_with_execution task_id store
    not_deleted source.task
    execution ← the_execution source.execution
    has_ended execution
    authorize_manage_org_ids outside operator source.org_ids
    call outside read_items
    version ← next_version_no outside (effective_root_task_id task_id source.task) store
    create_task_version outside (some (effective_root_task_id task_id source.task)) (some task_id)
        version operator
        (retry_draft source.task source.org_ids
          (sort_by row_before (or_empty (get task_id store.items))))
        by_retry store
