-- ===== src/OjTask/Snapshot.antt =====
-- ojTaskDispatcher.go: the snapshot of who has solved what (buildExecutionSnapshot), from what the
-- repositories answer, and its items' results. The user's name, avatar and status are left out.
use personal_assistant.Base.{
  ℕ, suc, ltb, nat_eq, Bool, false, not, ◌||◌, List, [], ◌∷◌, Option, none, some, if◌then◌else◌,
  String, ◌==◌, string_key, nat_key,
}
use personal_assistant.Base.Maps.{Map, get}
use personal_assistant.OjTask.Types.{Counts, zero_counts}

pub data ItemResult : Type 0 where
  completed pending : ItemResult

pub data PendingReason : Type 0 where
  no_reason account_unbound unsolved question_not_found : PendingReason

pub record TaskItem : Type 0 where
  pub id : ℕ
  pub sort_no : ℕ
  pub platform : String
  pub resolution_status : String
  pub resolved_question_id : ℕ

-- What is known of a platform: the accounts by user, and the solved questions by account.
pub record Facts : Type 0 where
  pub details : Map ℕ ℕ
  pub solved : Map ℕ (List ℕ)

pub record AllFacts : Type 0 where
  pub luogu : Facts
  pub leetcode : Facts
  pub lanqiao : Facts

abbrev pub holds : ℕ → Option (List ℕ) → Bool
holds id none = false
holds id (some []) = false
holds id (some (x ∷ xs)) = nat_eq x id || holds id (some xs)

abbrev pub judged_by : ℕ → Facts → Option ℕ → ItemResult × PendingReason
judged_by question facts none = (pending, account_unbound)
judged_by question facts (some detail) =
    if holds question (get detail facts.solved) then (completed, no_reason) else (pending, unsolved)

abbrev pub judged : ℕ → ℕ → Facts → ItemResult × PendingReason
judged user question facts = judged_by question facts (get user facts.details)

unfoldable pub resolve_oj_task_item_result :
    ℕ → Option TaskItem → AllFacts → ItemResult × PendingReason
resolve_oj_task_item_result user none facts = (pending, question_not_found)
resolve_oj_task_item_result user (some item) facts =
    if not (item.resolution_status == "resolved") || nat_eq item.resolved_question_id 0
    then (pending, question_not_found)
    else if item.platform == "luogu"
    then judged user item.resolved_question_id facts.luogu
    else if item.platform == "leetcode"
    then judged user item.resolved_question_id facts.leetcode
    else if item.platform == "lanqiao"
    then judged user item.resolved_question_id facts.lanqiao
    else (pending, unsolved)

pub record ExecutionUser : Type 0 where
  pub user_id : ℕ
  pub all_completed : Bool
  pub completed_item_count : ℕ
  pub pending_item_count : ℕ

pub record UserOrgDraft : Type 0 where
  pub user_id : ℕ
  pub org_id : ℕ
  pub org_name : String

pub record UserItemDraft : Type 0 where
  pub user_id : ℕ
  pub task_item_id : ℕ
  pub result_status : ItemResult
  pub reason : PendingReason

pub record Snapshot : Type 0 where
  pub users : List ExecutionUser
  pub user_org_drafts : List UserOrgDraft
  pub user_item_drafts : List UserItemDraft
  pub counts : Counts

abbrev pub empty_snapshot : Snapshot
empty_snapshot = record {
  users = [];
  user_org_drafts = [];
  user_item_drafts = [];
  counts = zero_counts;
}

-- sort.Slice by a test, which keeps no order among equals but that of the model.
unfoldable pub insert_by {ℓ} : {A : Type ℓ} → (A → A → Bool) → A → List A → List A
insert_by before x [] = x ∷ []
insert_by before x (y ∷ ys) =
    let rest = insert_by before x ys in if before y x then y ∷ rest else x ∷ y ∷ ys

unfoldable pub sort_by {ℓ} : {A : Type ℓ} → (A → A → Bool) → List A → List A
sort_by before [] = []
sort_by before (x ∷ xs) = insert_by before x (sort_by before xs)

abbrev pub item_before : TaskItem → TaskItem → Bool
item_before a b = if nat_eq a.sort_no b.sort_no then ltb a.id b.id else ltb a.sort_no b.sort_no

-- Adds one result to the user and to the snapshot.
abbrev pub add_result : ItemResult → ExecutionUser → ExecutionUser
add_result completed u = record {
  user_id = u.user_id;
  all_completed = u.all_completed;
  completed_item_count = suc u.completed_item_count;
  pending_item_count = u.pending_item_count;
}
add_result pending u = record {
  user_id = u.user_id;
  all_completed = u.all_completed;
  completed_item_count = u.completed_item_count;
  pending_item_count = suc u.pending_item_count;
}

abbrev pub count_item : ItemResult → Counts → Counts
count_item completed c = record {
  total_user_count = c.total_user_count;
  completed_user_count = c.completed_user_count;
  pending_user_count = c.pending_user_count;
  total_item_count = suc c.total_item_count;
  completed_item_count = suc c.completed_item_count;
  pending_item_count = c.pending_item_count;
}
count_item pending c = record {
  total_user_count = c.total_user_count;
  completed_user_count = c.completed_user_count;
  pending_user_count = c.pending_user_count;
  total_item_count = suc c.total_item_count;
  completed_item_count = c.completed_item_count;
  pending_item_count = suc c.pending_item_count;
}

abbrev pub count_user : Bool → Counts → Counts
count_user all_completed c = record {
  total_user_count = suc c.total_user_count;
  completed_user_count =
      if all_completed then suc c.completed_user_count else c.completed_user_count;
  pending_user_count = if all_completed then c.pending_user_count else suc c.pending_user_count;
  total_item_count = c.total_item_count;
  completed_item_count = c.completed_item_count;
  pending_item_count = c.pending_item_count;
}
