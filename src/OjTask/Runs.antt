-- ===== src/OjTask/Runs.antt =====
-- ojTaskDispatcher.go: attempts at one execution, one after the other.
use personal_assistant.Base.{
  ℕ, suc, ◌≡◌, ◌≤◌, refl, sym, ap, subst, ◌∙◌, Bool, true, false, inl, inr, List, [], ◌∷◌, Option,
  none, some, if◌then◌else◌, nat_key, arith,
}
use personal_assistant.Base.Text.{Text}
use personal_assistant.OjTask.Types.{ExecutionStatus, Execution, Db, is_dispatchable, Error}
use personal_assistant.OjTask.Dispatch.{
  AttemptState, executed, noop, terminal_failed, retryable_error, AttemptResult, DispatchRow, Calls,
  dispatch_single_execution,
}
use personal_assistant.OjTask.Outcome.{ExecutionIs, IsClosed, Ends}
use personal_assistant.OjTask.Attempted.{is_untouched, dispatch-Attempted}

-- One attempt: the status and the task that its row shows, and what becomes of its calls.
pub record Attempt : Type 0 where
  pub status : ExecutionStatus
  pub task_id : ℕ
  pub calls : Calls

module _ (text_of_error : Error → Text) (id : ℕ) where
  abbrev pub attempt_row : Attempt → DispatchRow
  attempt_row attempt = record {
    execution_id = id;
    task_id = attempt.task_id;
    status = attempt.status;
  }

  abbrev pub tried : Attempt → Db → AttemptResult × Db
  tried attempt db = dispatch_single_execution text_of_error attempt.calls (attempt_row attempt) db

  -- How many of the attempts say that they have executed the execution, or that it has failed.
  unfoldable pub num_ended : Db → List Attempt → ℕ
  num_ended db [] = 0
  num_ended db (attempt ∷ attempts) =
      let rest = num_ended (tried attempt db).1 attempts in
      if is_untouched (tried attempt db).0.state then rest else suc rest

  closed_untouched :
      (db : Db) (attempt : Attempt)
      → ExecutionIs id db IsClosed
      → ((tried attempt db).1 ≡ db) × (is_untouched (tried attempt db).0.state ≡ true)
  closed_untouched db attempt (e, found, closed) =
      elim (dispatch-Attempted text_of_error attempt.calls (attempt_row attempt) db) [
        | inl h ↦ h
        | inr ((f, there, waits), ends) ↦
            absurd (never (ap (λ o. waits_in o) (sym found ∙ there) ∙ waits))
      ]
    where
      waits_in : Option Execution → Bool
      waits_in none = false
      waits_in (some e) = is_dispatchable e.status

      never : is_dispatchable e.status ≡ true → ⊥
      never q = cc (q, closed)

  num_ended-closed :
      (db : Db) (attempts : List Attempt) → ExecutionIs id db IsClosed → num_ended db attempts ≡ 0
  unfolding num_ended
  num_ended-closed db [] h = refl
  num_ended-closed db (attempt ∷ attempts) h =
      let (same, untouched) = closed_untouched db attempt h in
      ap
        (λ b.
          if b
          then num_ended (tried attempt db).1 attempts
          else suc (num_ended (tried attempt db).1 attempts))
        untouched
      ∙ (ap (λ after. num_ended after attempts) same ∙ num_ended-closed db attempts h)

  Ends-IsClosed :
      (attempt : Attempt) (state : AttemptState) (after : Db)
      → Ends text_of_error attempt.calls (attempt_row attempt) state after
      → ExecutionIs id after IsClosed
  Ends-IsClosed attempt executed after ((e, found, succeeds), h) =
      (e, found, ap is_dispatchable succeeds.0)
  Ends-IsClosed attempt noop after h = absurd h
  Ends-IsClosed attempt terminal_failed after ((e, found, fails), h) =
      (e, found, ap is_dispatchable fails.0)
  Ends-IsClosed attempt retryable_error after h = h

  first_end : (b : Bool) (n : ℕ) → n ≡ 0 → (if b then n else suc n) ≤ 1
  first_end b n q = ground (arith, q)

  -- Of any attempts at one execution, made one after the other with whatever rows and failures,
  -- at most one reports that the execution was carried out or has failed for good.
  pub num_ended-bounded : (db : Db) (attempts : List Attempt) → num_ended db attempts ≤ 1
  unfolding num_ended
  num_ended-bounded db [] = omega arith
  num_ended-bounded db (attempt ∷ attempts) =
      elim (dispatch-Attempted text_of_error attempt.calls (attempt_row attempt) db) [
        | inl (same, untouched) ↦
            subst (λ n. n ≤ 1)
              (sym (
                ap
                  (λ b.
                    if b
                    then num_ended (tried attempt db).1 attempts
                    else suc (num_ended (tried attempt db).1 attempts))
                  untouched
                ∙ ap (λ after. num_ended after attempts) same))
              (num_ended-bounded db attempts)
        | inr (there, ends) ↦ first_end (is_untouched (tried attempt db).0.state) _ (
            num_ended-closed (tried attempt db).1 attempts
              (Ends-IsClosed attempt (tried attempt db).0.state (tried attempt db).1 ends))
      ]
