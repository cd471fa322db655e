-- ===== src/OjTask/Lifecycle/Passes.antt =====
-- ojTaskDispatcher.go and ojTaskExecutionRepo.go: a pass over the executions that are due
-- (DispatchPendingExecutions) with one worker.
use personal_assistant.Base.{
  ℕ, suc, zero, leb, ltb, nat_eq, Bool, ◌&&◌, Option, none, some, if◌then◌else◌, nat_key, List, [],
  ◌∷◌,
}
use personal_assistant.Base.Maps.{Map}
use personal_assistant.Base.Text.{Text}
use personal_assistant.OjTask.Snapshot.{sort_by}
use personal_assistant.OjTask.Types.{Error, db_error, joined, is_dispatchable, Execution, Db}
use personal_assistant.OjTask.Dispatch.{
  Calls, DispatchRow, dispatch_single_execution, dispatch_attempt_result_error,
}

abbrev pub is_due : ℕ → Execution → Bool
is_due now execution = is_dispatchable execution.status && leb execution.planned_at now

abbrev pub DueRow : Type 0
DueRow = ℕ × Execution

abbrev pub due_before : DueRow → DueRow → Bool
due_before (x, e) (y, f) =
    if nat_eq e.planned_at f.planned_at then ltb x y else ltb e.planned_at f.planned_at

unfoldable pub due_of : ℕ → Map ℕ Execution → List DueRow
due_of now [] = []
due_of now (row ∷ rows) =
    let rest = due_of now rows in if is_due now row.1 then row ∷ rest else rest

-- LIMIT; a limit of zero is none.
unfoldable pub first_rows {ℓ} : {A : Type ℓ} → ℕ → List A → List A
first_rows zero rows = []
first_rows (suc limit) [] = []
first_rows (suc limit) (row ∷ rows) = row ∷ first_rows limit rows

abbrev pub limited {ℓ} : {A : Type ℓ} → ℕ → List A → List A
limited limit rows = if ltb 0 limit then first_rows limit rows else rows

abbrev pub dispatch_row : DueRow → DispatchRow
dispatch_row (x, e) = record { execution_id = x; task_id = e.task_id; status = e.status }

unfoldable pub list_due_executions : ℕ → ℕ → Db → List DueRow
list_due_executions now limit db = limited limit (sort_by due_before (due_of now db.executions))

abbrev pub join_errors : Option Error → Option Error → Option Error
join_errors before none = before
join_errors none (some cause) = some cause
join_errors (some before) (some cause) = some (joined before cause)

module _ (text_of_error : Error → Text) where
  -- The attempts of a pass; `calls` is what becomes of the calls of the attempt at a position.
  unfoldable pub dispatch_rows :
      (ℕ → Calls) → ℕ → Option Error → List DueRow → Db → Option Error × Db
  dispatch_rows calls at before [] db = (before, db)
  dispatch_rows calls at before (row ∷ rows) db =
      let step = dispatch_single_execution text_of_error (calls at) (dispatch_row row) db in
      dispatch_rows calls (suc at) (join_errors before (dispatch_attempt_result_error step.0)) rows
        step.1

  unfoldable pub dispatch_pending_executions : Bool → ℕ → ℕ → (ℕ → Calls) → Db → Option Error × Db
  dispatch_pending_executions list_fails now limit calls db =
      if list_fails
      then (some db_error, db)
      else dispatch_rows calls 0 none (list_due_executions now limit db) db
