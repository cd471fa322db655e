-- ===== src/OjTask/Tests.antt =====
-- Examples for the dispatcher: one organisation with two users, and a task with two items.
use personal_assistant.Base.{◌↔◌, nat_key, ◌≡◌, ◌≤◌, refl, true, false, List, [], ◌∷◌, none, some}
use personal_assistant.Base.Text.{Text, lit}
use personal_assistant.Base.Maps.{get, put}
use personal_assistant.Base.Result.{ok}
use personal_assistant.OjTask.Types.{
  Error, immediate, create_immediate, executing, queued, task_queued, zero_counts, Counts,
  Execution, Task, Db,
}
use personal_assistant.OjTask.Snapshot.{
  completed, AllFacts, TaskItem, insert_by, sort_by, resolve_oj_task_item_result,
}
use personal_assistant.OjTask.Build.{
  Reads, build_execution_snapshot, normalize_loop, normalize_uint_slice, item_loop, user_loop,
  load_execution_facts,
}
use personal_assistant.OjTask.Built.{CountedResult, build_execution_snapshot-Counted}
use personal_assistant.OjTask.Dispatch.{
  execute_execution_by_id, execute_single_execution_by_id, counts_of, DispatchRow, Calls, acquired,
  dispatch_single_execution, claim_execution, claimed_attempt, fail_execution_attempt,
  mark_execution_failed,
}
use personal_assistant.OjTask.Attempted.{Attempted, dispatch-Attempted}
use personal_assistant.OjTask.Acknowledged.{IsSettled, acknowledged-IsSettled}
use personal_assistant.OjTask.Solved.{IsSolved, completed_exact}
use personal_assistant.OjTask.Runs.{Attempt, num_ended, num_ended-bounded}
use personal_assistant.OjTask.Carried.{all_well, IsCarriedOut, waiting_succeeds}
use personal_assistant.Base.Result.{Result, err}
use personal_assistant.OjTask.Snapshot.{Snapshot, empty_snapshot}
use personal_assistant.OjTask.Persist.{Writes}

abbrev luogu_item : TaskItem
luogu_item = record {
  id = 1;
  sort_no = 2;
  platform = "luogu";
  resolution_status = "resolved";
  resolved_question_id = 11;
}

abbrev leetcode_item : TaskItem
leetcode_item = record {
  id = 2;
  sort_no = 1;
  platform = "leetcode";
  resolution_status = "resolved";
  resolved_question_id = 12;
}

-- User 7 has account 70 and solved both; user 9 has account 90 at luogu alone and solved nothing.
abbrev reads : Reads
reads = record {
  list_task_orgs = some ((4, "team") ∷ []);
  list_items = some (luogu_item ∷ leetcode_item ∷ []);
  list_pairs = λ orgs. some ((9, 4) ∷ (7, 4) ∷ []);
  get_users = λ ids. some (7 ∷ 9 ∷ []);
  luogu = record {
    get_by_user_ids = λ ids. some ((7, 70) ∷ (9, 90) ∷ []);
    get_solved = λ ids. some ((70, 11 ∷ []) ∷ []);
  };
  leetcode = record {
    get_by_user_ids = λ ids. some ((7, 70) ∷ []);
    get_solved = λ ids. some ((70, 12 ∷ []) ∷ []);
  };
  lanqiao = record { get_by_user_ids = λ ids. some []; get_solved = λ ids. some [] };
}

abbrev counts : Counts
counts = record {
  total_user_count = 2;
  completed_user_count = 1;
  pending_user_count = 1;
  total_item_count = 4;
  completed_item_count = 2;
  pending_item_count = 2;
}

built : counts_of (build_execution_snapshot reads) ≡ ok counts
unfolding build_execution_snapshot sort_by insert_by resolve_oj_task_item_result normalize_loop
    normalize_uint_slice item_loop user_loop load_execution_facts get put
built = refl

build_execution_snapshot-Counted_example : CountedResult (build_execution_snapshot reads)
build_execution_snapshot-Counted_example = build_execution_snapshot-Counted reads

abbrev waiting : Execution
waiting = record {
  task_id = 3;
  trigger_type = create_immediate;
  planned_at = 10;
  started_at = none;
  finished_at = none;
  requested_by = 7;
  status = queued;
  error_message = [];
  counts = zero_counts;
}

abbrev task : Task
task = record {
  root_task_id = some 3;
  parent_task_id = none;
  version_no = 1;
  title = lit "week one";
  description = [];
  mode = immediate;
  execute_at = none;
  created_by = 1;
  status = task_queued;
  updated_by = 1;
}

abbrev tables : Db
tables = record { executions = (5, waiting) ∷ []; tasks = (3, task) ∷ [] }

abbrev row : DispatchRow
row = record { execution_id = 5; task_id = 3; status = queued }

abbrev no_text : Error → Text
no_text cause = lit "failed"

dispatch-Attempted_example :
    Attempted no_text
      (all_well reads 20 30)
      row
      tables
      (dispatch_single_execution no_text (all_well reads 20 30) row tables)
dispatch-Attempted_example = dispatch-Attempted no_text (all_well reads 20 30) row tables

found_execution : get 5 tables.executions ≡ some waiting
unfolding get
found_execution = refl

found_task : get 3 tables.tasks ≡ some task
unfolding get
found_task = refl

waiting_succeeds_example :
    IsCarriedOut no_text row reads 20 30 tables waiting task counts
      (claim_execution row.execution_id 20 tables)
      (dispatch_single_execution no_text (all_well reads 20 30) row tables)
waiting_succeeds_example =
    waiting_succeeds no_text row reads 20 30 tables waiting task counts refl found_execution refl
      found_task built

-- Two attempts at one execution, both with a row that was read before.
abbrev attempts : List Attempt
attempts =
    record { status = queued; task_id = 3; calls = all_well reads 20 30 }
    ∷ record { status = queued; task_id = 3; calls = all_well reads 21 31 }
    ∷ []

num_ended-bounded_example : num_ended no_text 5 tables attempts ≤ 1
num_ended-bounded_example = num_ended-bounded no_text 5 tables attempts

-- The execution of an attempt whose marking failed: claimed, and not closed.
abbrev stuck : Execution
stuck = record {
  task_id = 3;
  trigger_type = create_immediate;
  planned_at = 10;
  started_at = some 20;
  finished_at = none;
  requested_by = 7;
  status = executing;
  error_message = [];
  counts = zero_counts;
}

abbrev stuck_tables : Db
stuck_tables = record { executions = (5, stuck) ∷ []; tasks = (3, task) ∷ [] }

-- Claimed, then the task cannot be read, and neither can the execution for the marking.
abbrev failing : Calls
failing = record {
  row_read_fails = false;
  lock = acquired;
  claim_fails = false;
  claimed_at = 20;
  task_read_fails = true;
  execution_read_fails = false;
  task_update_fails = false;
  pre_flight = none;
  reads = reads;
  persist = none;
  finished_at = 30;
  mark_execution_read_fails = true;
  mark_execution_update_fails = false;
  mark_task_read_fails = false;
  mark_task_update_fails = false;
}

left_stuck : (dispatch_single_execution no_text failing row tables).1 ≡ stuck_tables
unfolding dispatch_single_execution claim_execution claimed_attempt fail_execution_attempt
    mark_execution_failed get put
left_stuck = refl

acknowledged : (execute_execution_by_id no_text (all_well reads 20 30) 5 tables).0 ≡ none
unfolding execute_execution_by_id execute_single_execution_by_id dispatch_single_execution
    claim_execution claimed_attempt fail_execution_attempt mark_execution_failed get put
    build_execution_snapshot sort_by insert_by resolve_oj_task_item_result normalize_loop
    normalize_uint_slice item_loop user_loop load_execution_facts
acknowledged = refl

acknowledged-IsSettled_example :
    IsSettled no_text
      (all_well reads 20 30)
      5
      tables
      (execute_execution_by_id no_text (all_well reads 20 30) 5 tables).1
acknowledged-IsSettled_example =
    acknowledged-IsSettled no_text (all_well reads 20 30) 5 tables acknowledged

abbrev known : AllFacts
known = record {
  luogu = record { details = (7, 70) ∷ (9, 90) ∷ []; solved = (70, 11 ∷ []) ∷ [] };
  leetcode = record { details = []; solved = [] };
  lanqiao = record { details = []; solved = [] };
}

completed_exact_example :
    ((resolve_oj_task_item_result 7 (some luogu_item) known).0 ≡ completed)
    ↔ IsSolved 7 luogu_item known
completed_exact_example = completed_exact 7 luogu_item known

-- The snapshot of the reads, which is built.
abbrev the_snapshot : Result Error Snapshot → Snapshot
the_snapshot (err cause) = empty_snapshot
the_snapshot (ok snapshot) = snapshot

abbrev snapshot : Snapshot
snapshot = the_snapshot (build_execution_snapshot reads)

abbrev writes : Writes
writes = record {
  users_fail = false;
  listed = some ((31, 7) ∷ (32, 9) ∷ []);
  user_orgs_fail = false;
  user_items_fail = false;
  execution_fails = false;
  task_fails = false;
  commit_fails = false;
}
