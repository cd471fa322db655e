-- ===== src/OjTask/Persist.antt =====
-- ojTaskDispatcher.go, persistExecutionSnapshot: the rows that a snapshot becomes in one transaction. Which
-- calls fail, and the stored users that are read back with their ids, is given from outside.
use personal_assistant.Base.{
  ℕ, nat_eq, Bool, List, [], ◌∷◌, Option, none, some, if◌then◌else◌, nat_key, String,
}
use personal_assistant.Base.Maps.{Map, get, put}
use personal_assistant.Base.Result.{Result, ok, err, ◌>>=◌, ◌>>◌}
use personal_assistant.OjTask.Types.{Error, db_error, internal_error}
use personal_assistant.OjTask.Snapshot.{
  ItemResult, PendingReason, ExecutionUser, UserOrgDraft, UserItemDraft, Snapshot,
}
use personal_assistant.OjTask.Build.{or_db_error}

-- OJTaskExecutionUserOrg
pub record UserOrgRow : Type 0 where
  pub execution_user_id : ℕ
  pub org_id : ℕ
  pub org_name : String

-- OJTaskExecutionUserItem
pub record UserItemRow : Type 0 where
  pub user_id : ℕ
  pub execution_user_id : ℕ
  pub task_item_id : ℕ
  pub result_status : ItemResult
  pub reason : PendingReason

pub record SnapshotRows : Type 0 where
  pub users : List ExecutionUser
  pub user_orgs : List UserOrgRow
  pub user_items : List UserItemRow

-- `listed` is ListExecutionUsersByExecutionID: the ids of the rows with their users.
pub record Writes : Type 0 where
  pub users_fail : Bool
  pub listed : Option (List (ℕ × ℕ))
  pub user_orgs_fail : Bool
  pub user_items_fail : Bool
  pub execution_fails : Bool
  pub task_fails : Bool
  pub commit_fails : Bool

-- executionUserIDMap: the id of the row by user.
unfoldable pub execution_user_ids : Map ℕ ℕ → List (ℕ × ℕ) → Map ℕ ℕ
execution_user_ids known [] = known
execution_user_ids known ((id, user) ∷ rest) =
    execution_user_ids (if nat_eq user 0 then known else put user id known) rest

-- The id of a user's row; a user without one is an error.
abbrev pub row_id : Option ℕ → Result Error ℕ
row_id none = err internal_error
row_id (some id) = ok id

unfoldable pub user_org_rows : Map ℕ ℕ → List UserOrgDraft → Result Error (List UserOrgRow)
user_org_rows ids [] = ok []
user_org_rows ids (draft ∷ drafts) = do
  id ← row_id (get draft.user_id ids)
  rows ← user_org_rows ids drafts
  ok (record { execution_user_id = id; org_id = draft.org_id; org_name = draft.org_name } ∷ rows)

abbrev pub item_row : ℕ → UserItemDraft → UserItemRow
item_row id draft = record {
  user_id = draft.user_id;
  execution_user_id = id;
  task_item_id = draft.task_item_id;
  result_status = draft.result_status;
  reason = draft.reason;
}

unfoldable pub user_item_rows : Map ℕ ℕ → List UserItemDraft → Result Error (List UserItemRow)
user_item_rows ids [] = ok []
user_item_rows ids (draft ∷ drafts) = do
  id ← row_id (get draft.user_id ids)
  rows ← user_item_rows ids drafts
  ok (item_row id draft ∷ rows)

abbrev pub unless : Bool → Result Error (Unit {0})
unless failed = if failed then err db_error else ok tt

unfoldable pub persist_execution_snapshot : Writes → Snapshot → Result Error SnapshotRows
persist_execution_snapshot writes snapshot = do
  unless writes.users_fail
  listed ← or_db_error writes.listed
  let ids = execution_user_ids [] listed
  orgs ← user_org_rows ids snapshot.user_org_drafts
  unless writes.user_orgs_fail
  items ← user_item_rows ids snapshot.user_item_drafts
  unless writes.user_items_fail
  unless writes.execution_fails
  unless writes.task_fails
  unless writes.commit_fails
  ok (record { users = snapshot.users; user_orgs = orgs; user_items = items })
