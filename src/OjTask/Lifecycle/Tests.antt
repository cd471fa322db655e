-- ===== src/OjTask/Lifecycle/Tests.antt =====
-- Examples for the life of a task: a task that is planned, and what becomes of it.
use personal_assistant.Base.{
  List, All, ℕ, ◌≡◌, refl, true, false, [], ◌∷◌, none, some, nat_key, arith,
}
use personal_assistant.Base.Maps.{get, put}
use personal_assistant.Base.Text.{Text, lit, text_eq, trim_space, trim_left, trim_right, is_space}
use personal_assistant.Base.Result.{ok, err}
use personal_assistant.OjTask.Build.{normalize_loop, normalize_uint_slice}
use personal_assistant.OjTask.Types.{
  Error, db_error, not_editable, deferred, schedule_due, scheduled, cancelled, TaskStatus,
  task_scheduled, task_queued, task_deleted, zero_counts, Execution, Task,
}
use personal_assistant.OjTask.Dispatch.{claim_execution}
use personal_assistant.OjTask.Lifecycle.Draft.{
  TaskReq, org_there, org_loop, validate_org_ids, item_checks, validate_items, validate_draft,
}
use personal_assistant.OjTask.Lifecycle.Materialize.{
  Questions, materialize_draft_item, materialize_loop, materialize_draft_items, materialize_draft,
}
use personal_assistant.OjTask.Lifecycle.Store.{Store, Outside, find_by_task, latest_version}
use personal_assistant.OjTask.Lifecycle.Create.{create_task_version, create_task}
use personal_assistant.OjTask.Lifecycle.Edit.{
  load_editable_scheduled_task, delete_task, execute_task_now,
}
use personal_assistant.OjTask.Lifecycle.Versions.{load_task_with_execution, revise_task}
use personal_assistant.OjTask.Lifecycle.Chains.{IsFresh}
use personal_assistant.OjTask.Lifecycle.Reached.{
  empty_store, Reach, here, next, plan, delete, execute_now, revise, claim, with_db,
}
use personal_assistant.OjTask.Lifecycle.Finished.{final_frozen}
use personal_assistant.OjTask.Lifecycle.Paired.{ItsExecution, task-ItsExecution, versions_distinct}
use personal_assistant.OjTask.Lifecycle.Materialize.{Candidate}
use personal_assistant.OjTask.Lifecycle.Store.{ItemRow}
use personal_assistant.OjTask.Lifecycle.Preflight.{
  Checks, apply_resolved_candidate, pre_flight_task_item, pre_flight_items, pre_flight_check,
}
use personal_assistant.OjTask.Lifecycle.Decided.{IsSettled, AreDecided}
use personal_assistant.OjTask.Lifecycle.Prechecked.{pre_flight_decides}
use personal_assistant.Base.{suc, map}
use personal_assistant.OjTask.Snapshot.{sort_by, insert_by}
use personal_assistant.OjTask.Lifecycle.Upserted.{
  Upserts, find_item, all_rows, list_pending_intakes_by_title, match_intakes,
  handle_question_upserted,
}

abbrev no_text : Error → Text
no_text cause = lit "failed"

abbrev questions : Questions
questions = record {
  decode = λ token. none;
  by_id = λ platform id. err db_error;
  by_title = λ platform title. ok [];
}

abbrev outside : ℕ → ℕ → Outside
outside task execution = record {
  fails = λ call. false;
  authorize = λ operator org. ok tt;
  org = λ id. org_there;
  questions = questions;
  has_publisher = true;
  now = 10;
  new_task_id = task;
  new_execution_id = execution;
  item_id = λ at. suc at;
}

abbrev req : TaskReq
req = record {
  title = lit "week one";
  description = [];
  mode = lit "scheduled";
  execute_at = some 20;
  org_ids = 4 ∷ [];
  items = record { platform = lit "luogu"; title = lit "sum"; analysis_token = [] } ∷ [];
}

abbrev planned : Store
planned = (create_task (outside 3 5) 7 req empty_store).1

planned-IsFresh : IsFresh (outside 3 5) empty_store
unfolding get
planned-IsFresh = record { fresh = refl; fresh_task = refl; positive = (omega arith, omega arith) }

planning : Reach no_text empty_store planned
planning = next here (plan (outside 3 5) 7 req planned-IsFresh)

abbrev task_row : TaskStatus → Task
task_row status = record {
  root_task_id = some 3;
  parent_task_id = none;
  version_no = 1;
  title = lit "week one";
  description = [];
  mode = deferred;
  execute_at = some 20;
  created_by = 7;
  status = status;
  updated_by = 7;
}

abbrev execution_row : Execution
execution_row = record {
  task_id = 3;
  trigger_type = schedule_due;
  planned_at = 20;
  started_at = none;
  finished_at = none;
  requested_by = 7;
  status = scheduled;
  error_message = [];
  counts = zero_counts;
}

planned_task : get 3 planned.db.tasks ≡ some (task_row task_scheduled)
unfolding create_task validate_draft validate_org_ids org_loop validate_items item_checks
    materialize_draft materialize_draft_items materialize_loop materialize_draft_item
    create_task_version get put normalize_loop normalize_uint_slice text_eq trim_space trim_left
    trim_right is_space
planned_task = refl

-- The task is deleted, and then a worker comes with a row that it read before.
abbrev removed : Store
removed = (delete_task (outside 3 5) 7 3 planned).1

removing : Reach no_text empty_store removed
removing = next planning (delete (outside 3 5) 7 3)

removed_task : get 3 removed.db.tasks ≡ some (task_row task_deleted)
unfolding create_task validate_draft validate_org_ids org_loop validate_items item_checks
    materialize_draft materialize_draft_items materialize_loop materialize_draft_item
    create_task_version get put normalize_loop normalize_uint_slice text_eq trim_space trim_left
    trim_right is_space load_editable_scheduled_task find_by_task delete_task
removed_task = refl

abbrev removed_row : Execution
removed_row = record execution_row { status = cancelled; finished_at = some 10 }

removed_execution : get 5 removed.db.executions ≡ some removed_row
unfolding create_task validate_draft validate_org_ids org_loop validate_items item_checks
    materialize_draft materialize_draft_items materialize_loop materialize_draft_item
    create_task_version get put normalize_loop normalize_uint_slice text_eq trim_space trim_left
    trim_right is_space load_editable_scheduled_task find_by_task delete_task
removed_execution = refl

abbrev claimed_late : Store
claimed_late = with_db (claim_execution 5 20 removed.db).1 removed

final_frozen_example :
    (get 5 claimed_late.db.executions ≡ some removed_row)
    × (get 3 claimed_late.db.tasks ≡ some (task_row task_deleted))
final_frozen_example =
    final_frozen no_text 5 removed_row (task_row task_deleted) removing removed_execution refl
      removed_task (next here (claim 5 20))

-- The task is carried out at once: it is queued, with its trigger.
abbrev started : Store
started = (execute_task_now (outside 3 5) 7 3 planned).1

starting : Reach no_text empty_store started
starting = next planning (execute_now (outside 3 5) 7 3)

started_triggers : started.triggers ≡ (5, 3) ∷ []
unfolding create_task validate_draft validate_org_ids org_loop validate_items item_checks
    materialize_draft materialize_draft_items materialize_loop materialize_draft_item
    create_task_version get put normalize_loop normalize_uint_slice text_eq trim_space trim_left
    trim_right is_space load_editable_scheduled_task find_by_task execute_task_now
started_triggers = refl

started_task : get 3 started.db.tasks ≡ some (task_row task_queued)
unfolding create_task validate_draft validate_org_ids org_loop validate_items item_checks
    materialize_draft materialize_draft_items materialize_loop materialize_draft_item
    create_task_version get put normalize_loop normalize_uint_slice text_eq trim_space trim_left
    trim_right is_space load_editable_scheduled_task find_by_task execute_task_now
started_task = refl

task-ItsExecution_example :
    (x : ℕ) × (e : Execution) × ItsExecution 3 (task_row task_queued) started x e
task-ItsExecution_example = task-ItsExecution no_text starting 3 (task_row task_queued) started_task

-- An operation on a task that is queued is refused.
refused : (delete_task (outside 3 5) 7 3 started).0 ≡ err not_editable
unfolding create_task validate_draft validate_org_ids org_loop validate_items item_checks
    materialize_draft materialize_draft_items materialize_loop materialize_draft_item
    create_task_version get put normalize_loop normalize_uint_slice text_eq trim_space trim_left
    trim_right is_space load_editable_scheduled_task find_by_task execute_task_now delete_task
refused = refl

-- A revision is the second version of the chain.
abbrev revised : Store
revised = (revise_task (outside 4 6) 8 3 req planned).1

revised-IsFresh : IsFresh (outside 4 6) planned
unfolding create_task validate_draft validate_org_ids org_loop validate_items item_checks
    materialize_draft materialize_draft_items materialize_loop materialize_draft_item
    create_task_version get put normalize_loop normalize_uint_slice text_eq trim_space trim_left
    trim_right is_space
revised-IsFresh = record { fresh = refl; fresh_task = refl; positive = (omega arith, omega arith) }

revising : Reach no_text empty_store revised
revising = next planning (revise (outside 4 6) 8 3 req revised-IsFresh)

abbrev second_row : Task
second_row = record (task_row task_scheduled) {
  parent_task_id = some 3;
  version_no = 2;
  created_by = 8;
  updated_by = 8;
}

revised_task : get 4 revised.db.tasks ≡ some second_row
unfolding create_task validate_draft validate_org_ids org_loop validate_items item_checks
    materialize_draft materialize_draft_items materialize_loop materialize_draft_item
    create_task_version get put normalize_loop normalize_uint_slice text_eq trim_space trim_left
    trim_right is_space load_task_with_execution find_by_task latest_version revise_task
revised_task = refl

versions_distinct_example : ◌≡◌ {A = ℕ} 4 4
versions_distinct_example =
    versions_distinct no_text revising 4 4 second_row second_row revised_task revised_task refl refl

abbrev checks : List Candidate → Checks
checks found = record {
  enabled = true;
  items_read_fails = false;
  intakes_read_fails = false;
  by_title = λ platform title. ok found;
  item_write_fails = λ id. false;
  intake_write_fails = λ id. false;
  commit_fails = false;
}

abbrev candidate : Candidate
candidate = record { question_id = 11; question_code = lit "P1001"; title = lit "sum" }

abbrev waiting_row : ItemRow
waiting_row = record {
  id = 2;
  item = record {
    sort_no = 1;
    platform = lit "luogu";
    input_title = lit "sum";
    input_mode = lit "title";
    resolved_question_id = 0;
    resolved_question_code = [];
    resolved_title_snapshot = [];
    resolution_status = lit "pending_resolution";
    resolution_note = lit "awaiting_question_sync";
  };
}

abbrev found_row : ItemRow
found_row = apply_resolved_candidate candidate (lit "preflight_auto_resolved") waiting_row

first_check :
    pre_flight_check (checks (candidate ∷ [])) 3 (waiting_row ∷ []) [] ≡ ok (found_row ∷ [], [])
unfolding pre_flight_check pre_flight_items pre_flight_task_item text_eq get
first_check = refl

-- The question is gone from the bank, and the item keeps it.
second_check : pre_flight_check (checks []) 3 (found_row ∷ []) [] ≡ ok (found_row ∷ [], [])
unfolding pre_flight_check pre_flight_items pre_flight_task_item text_eq get
second_check = refl

pre_flight_decides_example :
    All IsSettled (found_row ∷ [])
    × AreDecided (checks (candidate ∷ [])).by_title (waiting_row ∷ []) (found_row ∷ [])
    × (◌≡◌ {A = List ItemRow} (found_row ∷ []) (found_row ∷ []))
pre_flight_decides_example =
    pre_flight_decides (checks (candidate ∷ [])) (checks []) 3 (waiting_row ∷ []) (found_row ∷ [])
      (found_row ∷ []) [] [] [] [] refl refl first_check second_check

abbrev upserts : Upserts
upserts = record {
  by_title = λ platform title. ok (candidate ∷ []);
  intakes_read_fails = false;
  item_read_fails = λ id. false;
  item_write_fails = λ id. false;
  intake_write_fails = λ id. false;
  commit_fails = false;
}

-- The item of the planned task waits for its question, which then comes.
abbrev upserted : Store
upserted = (handle_question_upserted upserts (lit "luogu") (lit " sum ") planned).1

upserted_items :
    map {B = ℕ × ℕ}
      (λ (row : ItemRow). (row.id, row.item.resolved_question_id))
      (all_rows upserted.items)
    ≡ (1, 11) ∷ []
unfolding handle_question_upserted find_item all_rows list_pending_intakes_by_title match_intakes
    create_task validate_draft validate_org_ids org_loop validate_items item_checks
    materialize_draft materialize_draft_items materialize_loop materialize_draft_item
    create_task_version get put normalize_loop normalize_uint_slice text_eq trim_space trim_left
    trim_right is_space sort_by insert_by
upserted_items = refl
