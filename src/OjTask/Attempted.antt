-- ===== src/OjTask/Attempted.antt =====
-- ojTaskDispatcher.go: what a whole attempt leaves in the tables, and what it reports.
use personal_assistant.Base.{
  nat_eq, ◌≡◌, refl, Bool, true, false, not, ◌||◌, ◌⊎◌, inl, inr, Option, none, some, by_test,
  nat_key,
}
use personal_assistant.Base.Maps.{get, get-put_self}
use personal_assistant.Base.Text.{Text}
use personal_assistant.OjTask.Types.{Execution, Db, is_dispatchable, Error, db_error}
use personal_assistant.OjTask.Dispatch.{
  AttemptState, executed, noop, terminal_failed, retryable_error, AttemptResult, DispatchRow,
  LockAnswer, retryable, noop_result, acquired, contended, broken, Calls, claimable, claim_found,
  claim_execution, after_claim, locked_attempt, dispatch_single_execution,
}
use personal_assistant.OjTask.Outcome.{ExecutionIs, Ends, Told, claimed-Ends}

-- The states that an attempt may report that changed nothing.
abbrev pub is_untouched : AttemptState → Bool
is_untouched executed = false
is_untouched noop = true
is_untouched terminal_failed = false
is_untouched retryable_error = true

module _ (text_of_error : Error → Text) (calls : Calls) (row : DispatchRow) where
  -- Either the tables are as before and nothing was attempted, or the row's execution was waiting and
  -- the attempt has ended.
  abbrev pub Attempted : Db → AttemptResult × Db → Type 0
  Attempted before step =
      ((step.1 ≡ before) × (is_untouched step.0.state ≡ true))
      ⊎ (ExecutionIs row.execution_id before (λ e. is_dispatchable e.status ≡ true)
          × Ends text_of_error calls row step.0.state step.1)

  claim-Attempted :
      (before : Db) (found : Option Execution)
      → get row.execution_id before.executions ≡ found
      → Attempted before (
          after_claim text_of_error calls row
            (claim_found row.execution_id calls.claimed_at before (claimable found)))
  claim-Attempted before none q = inl (refl, refl)
  claim-Attempted before (some e) q =
      by_test
        (λ o. Attempted before (
          after_claim text_of_error calls row
            (claim_found row.execution_id calls.claimed_at before o)))
        (is_dispatchable e.status) (some e) none
        (λ p. inr (
          (e, q, p),
          (claimed-Ends text_of_error calls row _
              (_, get-put_self row.execution_id _ before.executions, refl)).0,
        ))
        (λ _. inl (refl, refl))

  locked-Attempted :
      (before : Db) (answer : LockAnswer)
      → Attempted before (locked_attempt text_of_error calls row before answer)
  unfolding claim_execution
  locked-Attempted before broken = inl (refl, refl)
  locked-Attempted before contended = inl (refl, refl)
  locked-Attempted before acquired =
      by_test (Attempted before) calls.claim_fails (retryable db_error, before) _
        (λ _. inl (refl, refl))
        (λ _. claim-Attempted before (get row.execution_id before.executions) refl)

  -- Whichever calls fail, an attempt at an execution either leaves the tables as they were and
  -- reports a no-op or a retryable error, or the execution was waiting before, and then: if it
  -- reports success, the execution and its task (if there is one) are marked as succeeded and
  -- the counters are those of the snapshot; if it reports a terminal failure, they are marked
  -- as failed and the counters are zero; and if it reports a retryable error, the execution is
  -- no longer waiting.
  pub dispatch-Attempted :
      (before : Db) → Attempted before (dispatch_single_execution text_of_error calls row before)
  unfolding dispatch_single_execution
  dispatch-Attempted before =
      by_test (Attempted before)
        (nat_eq row.execution_id 0 || nat_eq row.task_id 0 || not (is_dispatchable row.status))
        (noop_result, before) _ (λ _. inl (refl, refl)) (λ _. locked-Attempted before calls.lock)

  claim-Told :
      (before : Db) (found : Option Execution)
      → Told
          (after_claim text_of_error calls row
            (claim_found row.execution_id calls.claimed_at before (claimable found))).0
  claim-Told before none = refl
  claim-Told before (some e) =
      by_test
        (λ o.
          Told
            (after_claim text_of_error calls row
              (claim_found row.execution_id calls.claimed_at before o)).0)
        (is_dispatchable e.status) (some e) none
        (λ p.
          (claimed-Ends text_of_error calls row _
            (_, get-put_self row.execution_id _ before.executions, refl)).1)
        (λ _. refl)

  locked-Told :
      (before : Db) (answer : LockAnswer)
      → Told (locked_attempt text_of_error calls row before answer).0
  unfolding claim_execution
  locked-Told before broken = refl
  locked-Told before contended = refl
  locked-Told before acquired =
      by_test (λ (step : AttemptResult × Db). Told step.0) calls.claim_fails
        (retryable db_error, before) _ (λ _. refl)
        (λ _. claim-Told before (get row.execution_id before.executions))

  pub dispatch-Told :
      (before : Db) → Told (dispatch_single_execution text_of_error calls row before).0
  unfolding dispatch_single_execution
  dispatch-Told before =
      by_test (λ (step : AttemptResult × Db). Told step.0)
        (nat_eq row.execution_id 0 || nat_eq row.task_id 0 || not (is_dispatchable row.status))
        (noop_result, before) _ (λ _. refl) (λ _. locked-Told before calls.lock)
