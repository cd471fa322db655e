-- ===== src/OjTask/Acknowledged.antt =====
-- ojTaskDispatcher.go, ExecuteExecutionByID: what an acknowledged event leaves.
use personal_assistant.Base.{
  ℕ, nat_eq, ◌≡◌, refl, ◌⊎◌, inl, inr, Option, none, some, by_test, nat_key,
}
use personal_assistant.Base.Maps.{get}
use personal_assistant.Base.Text.{Text}
use personal_assistant.OjTask.Types.{Error, db_error, Execution, Db}
use personal_assistant.OjTask.Dispatch.{
  AttemptState, executed, noop, terminal_failed, retryable_error, AttemptResult, Calls, noop_result,
  retryable, row_of, execute_found, execute_single_execution_by_id, trigger_attempt_result_error,
  execute_execution_by_id, dispatch_single_execution,
}
use personal_assistant.OjTask.Outcome.{HasSucceeded, HasFailed, Ends, Told}
use personal_assistant.OjTask.Attempted.{dispatch-Attempted, dispatch-Told}

module _ (text_of_error : Error → Text) (calls : Calls) (id : ℕ) where
  -- Nothing has changed, or the execution that was there has come to its end.
  abbrev pub IsSettled : Db → Db → Type 0
  IsSettled before after =
      (after ≡ before)
      ⊎ (e : Execution) × (get id before.executions ≡ some e)
        × (HasSucceeded text_of_error calls (row_of text_of_error calls id e) after
            ⊎ HasFailed text_of_error calls (row_of text_of_error calls id e) after)

  abbrev Answered : Db → AttemptResult × Db → Type 0
  Answered before step = trigger_attempt_result_error step.0 ≡ none → IsSettled before step.1

  ended-IsSettled :
      (before after : Db) (e : Execution) (state : AttemptState) (problem : Option Error)
      → get id before.executions ≡ some e
      → Told (record { state = state; err = problem })
      → Ends text_of_error calls (row_of text_of_error calls id e) state after
      → trigger_attempt_result_error (record { state = state; err = problem }) ≡ none
      → IsSettled before after
  ended-IsSettled before after e executed problem found told ends q = inr (e, found, inl ends)
  ended-IsSettled before after e noop problem found told ends q = absurd ends
  ended-IsSettled before after e terminal_failed problem found told ends q =
      inr (e, found, inr ends)
  ended-IsSettled before after e retryable_error none found told ends q = absurd cc
  ended-IsSettled before after e retryable_error (some problem) found told ends q = absurd cc

  found-Answered :
      (before : Db) (found : Option Execution)
      → get id before.executions ≡ found
      → Answered before (execute_found text_of_error calls id before found)
  found-Answered before none q a = inl refl
  found-Answered before (some e) q a =
      elim (dispatch-Attempted text_of_error calls (row_of text_of_error calls id e) before) [
        | inl (same, untouched) ↦ inl same
        | inr (there, ends) ↦
            ended-IsSettled before _ e _
              (dispatch_single_execution text_of_error calls (row_of text_of_error calls id e)
                before).0.err
              q (dispatch-Told text_of_error calls (row_of text_of_error calls id e) before) ends a
      ]

  -- If ExecuteExecutionByID returns no error, so that the event is acknowledged, then either
  -- the tables are as they were, or the execution was there and now has succeeded, with its
  -- task and with the counters of the snapshot, or has failed, with its task and with its
  -- counters at zero: an event is never acknowledged over an execution that its attempt left
  -- half done.
  pub acknowledged-IsSettled :
      (before : Db)
      → (execute_execution_by_id text_of_error calls id before).0 ≡ none
      → IsSettled before (execute_execution_by_id text_of_error calls id before).1
  unfolding execute_execution_by_id execute_single_execution_by_id
  acknowledged-IsSettled before a =
      by_test (Answered before) (nat_eq id 0) (noop_result, before) _ (λ _ q. inl refl)
        (λ _.
          by_test (Answered before) calls.row_read_fails (retryable db_error, before) _
            (λ _ q. inl refl) (λ _. found-Answered before (get id before.executions) refl))
        a
