-- ===== src/OjTask/Lifecycle/Attempts.antt =====
-- ojTaskDispatcher.go: what an attempt writes into the tables from the claim on, whichever calls fail.
use personal_assistant.Base.{
  ℕ, ◌≡◌, refl, sym, ap, subst, ◌∙◌, Bool, true, false, Option, none, some, nat_key, by_test, arith,
}
use personal_assistant.Base.Maps.{get, get-put, Unique, put-Unique}
use personal_assistant.Base.Text.{Text}
use personal_assistant.Base.Result.{Result, ok, err}
use personal_assistant.OjTask.Types.{
  Error, db_error, ExecutionStatus, queued, executing, succeeded, failed, TaskStatus,
  task_scheduled, task_queued, task_executing, task_succeeded, task_failed, task_deleted, Counts,
  Execution, Task, Db,
}
use personal_assistant.OjTask.Dispatch.{
  snapshot_counts, DispatchRow, Calls, put_execution, put_task, with_status, failed_execution,
  succeeded_execution, failure_message, mark_task, mark_task_read, mark_found,
  mark_execution_failed, failed_attempt, fail_execution_attempt, persist_snapshot, snapshot_step,
  pre_flight_step, with_execution, with_task, claimed_attempt,
}
use personal_assistant.OjTask.Lifecycle.Change.{is_open, agrees, Written, write_self, unwritten}

failed_agrees : (status : TaskStatus) → is_open status ≡ true → agrees failed status ≡ true
failed_agrees task_scheduled h = refl
failed_agrees task_queued h = refl
failed_agrees task_executing h = refl
failed_agrees task_succeeded h = absurd (cc)
failed_agrees task_failed h = absurd (cc)
failed_agrees task_deleted h = absurd (cc)

pub executing_agrees :
    (status : TaskStatus) → is_open status ≡ true → agrees executing status ≡ true
executing_agrees task_scheduled h = refl
executing_agrees task_queued h = refl
executing_agrees task_executing h = refl
executing_agrees task_succeeded h = absurd (cc)
executing_agrees task_failed h = absurd (cc)
executing_agrees task_deleted h = absurd (cc)

not_queued : (status : ExecutionStatus) → agrees status task_queued ≡ false → status ≡ queued → ⊥
not_queued status h q = cc (h, ap (λ w. agrees w task_queued) q)

pub executing-ne-queued : executing ≡ queued → ⊥
executing-ne-queued q = cc

failed-ne-queued : failed ≡ queued → ⊥
failed-ne-queued q = cc

succeeded-ne-queued : succeeded ≡ queued → ⊥
succeeded-ne-queued q = cc

module _ (text_of_error : Error → Text) (calls : Calls) (row : DispatchRow) (start : Db)
    (e : Execution) (t : Task) where
  -- The tables are those of the start, but for the execution and its task, which are as given.
  pub record Held (e' : Execution) (t' : Task) (db : Db) : Type 0 where
    pub written : Written row.execution_id row.task_id e' t' start db
    pub same_task : e'.task_id ≡ e.task_id
    pub same_root : t'.root_task_id ≡ t.root_task_id
    pub same_version : t'.version_no ≡ t.version_no
    pub keys : Unique start.executions → Unique db.executions

  -- How an attempt leaves the tables.
  abbrev pub Left : Db → Type 0
  Left db =
      (e' : Execution) × (t' : Task) × Held e' t' db
      × (agrees e'.status t'.status ≡ true)
      × (e'.status ≡ queued → ⊥)

  abbrev LeftBy {ℓ} : {A : Type ℓ} → A × Db → Type 0
  LeftBy step = Left step.1

  Held-execution :
      (e' e2 : Execution) (t' : Task) (db : Db)
      → Held e' t' db
      → e2.task_id ≡ e'.task_id
      → Held e2 t' (put_execution row.execution_id e2 db)
  Held-execution e' e2 t' db h same = record {
    written = (
      λ j.
          let old = h.written.0 j in
          ground (arith, get-put row.execution_id j e2 db.executions, old),
      h.written.1,
    );
    same_task = same ∙ h.same_task;
    same_root = h.same_root;
    same_version = h.same_version;
    keys = λ u. put-Unique row.execution_id e2 db.executions (h.keys u);
  }

  Held-task :
      (e' : Execution) (t' : Task) (status : TaskStatus) (by : ℕ) (db : Db)
      → Held e' t' db
      → Held e' (with_status status by t') (put_task row.task_id (with_status status by t') db)
  Held-task e' t' status by db h = record {
    written = (
      h.written.0,
      λ j.
          let old = h.written.1 j in
          ground (arith, get-put row.task_id j (with_status status by t') db.tasks, old),
    );
    same_task = h.same_task;
    same_root = h.same_root;
    same_version = h.same_version;
    keys = h.keys;
  }

  execution_found :
      (e' : Execution) (t' : Task) (db : Db)
      → Held e' t' db
      → get row.execution_id db.executions ≡ some e'
  execution_found e' t' db h =
      write_self row.execution_id e' (get row.execution_id db.executions)
        (get row.execution_id start.executions) (h.written.0 row.execution_id)

  task_found :
      (e' : Execution) (t' : Task) (db : Db) → Held e' t' db → get row.task_id db.tasks ≡ some t'
  task_found e' t' db h =
      write_self row.task_id t' (get row.task_id db.tasks) (get row.task_id start.tasks)
        (h.written.1 row.task_id)

  mark_task_read-Left :
      (e' : Execution) (t' : Task) (by : ℕ) (db : Db)
      → Held e' t' db
      → e'.status ≡ failed
      → is_open t'.status ≡ true
      → LeftBy (mark_task_read text_of_error calls row.task_id by db)
  mark_task_read-Left e' t' by db h fails opened =
      by_test LeftBy calls.mark_task_read_fails (true, db) _ (λ _. as_it_is)
        (λ _.
          subst (λ o. LeftBy (mark_task text_of_error calls row.task_id by db o))
            (sym (task_found e' t' db h))
            (by_test LeftBy calls.mark_task_update_fails (true, db) _ (λ _. as_it_is)
              (λ _. (
                e',
                with_status task_failed by t',
                Held-task e' t' task_failed by db h,
                ap (λ w. agrees w task_failed) fails,
                λ q. failed-ne-queued (sym fails ∙ q),
              ))))
    where
      as_it_is : Left db
      as_it_is = (
        e',
        t',
        h,
        ap (λ w. agrees w t'.status) fails ∙ failed_agrees t'.status opened,
        λ q. failed-ne-queued (sym fails ∙ q),
      )

  module _ (cause : Error) where
    fail-Left :
        (e' : Execution) (t' : Task) (db : Db)
        → Held e' t' db
        → e'.status ≡ executing
        → is_open t'.status ≡ true
        → LeftBy (fail_execution_attempt text_of_error calls row.task_id row.execution_id cause db)
    unfolding fail_execution_attempt mark_execution_failed
    fail-Left e' t' db h runs opened = reported _ (
        by_test LeftBy calls.mark_execution_read_fails (true, db) _ (λ _. as_it_is)
          (λ _.
            subst
              (λ o. LeftBy (mark_found text_of_error calls row.task_id row.execution_id cause db o))
              (sym (execution_found e' t' db h))
              (by_test LeftBy calls.mark_execution_update_fails (true, db) _ (λ _. as_it_is)
                (λ _.
                  mark_task_read-Left marked t' e'.requested_by
                    (put_execution row.execution_id marked db)
                    (Held-execution e' marked t' db h refl) refl opened))))
      where
        marked : Execution
        marked = failed_execution (failure_message text_of_error calls cause) calls.finished_at e'

        as_it_is : Left db
        as_it_is = (
          e',
          t',
          h,
          ap (λ w. agrees w t'.status) runs ∙ executing_agrees t'.status opened,
          λ q. executing-ne-queued (sym runs ∙ q),
        )

        reported :
            (step : Bool × Db)
            → LeftBy step
            → LeftBy (failed_attempt text_of_error calls cause step)
        reported (true, db) h = h
        reported (false, db) h = h

  module _ (e' : Execution) (t' : Task) (db : Db) (h : Held e' t' db) (runs : e'.status ≡ executing)
      (opened : is_open t'.status ≡ true) where
    persist_snapshot-Left :
        (counts : Counts) (answer : Option Error)
        → LeftBy (persist_snapshot text_of_error calls row e' t' counts db answer)
    persist_snapshot-Left counts (some cause) = fail-Left cause e' t' db h runs opened
    persist_snapshot-Left counts none = (
      succeeded_execution counts calls.finished_at e',
      with_status task_succeeded e'.requested_by t',
      Held-task (succeeded_execution counts calls.finished_at e') t' task_succeeded e'.requested_by
          (put_execution row.execution_id (succeeded_execution counts calls.finished_at e') db)
          (Held-execution e' (succeeded_execution counts calls.finished_at e') t' db h refl),
      refl,
      λ q. succeeded-ne-queued q,
    )

    snapshot_step-Left :
        (answer : Result Error Counts)
        → LeftBy (snapshot_step text_of_error calls row e' t' db answer)
    snapshot_step-Left (err cause) = fail-Left cause e' t' db h runs opened
    snapshot_step-Left (ok counts) = persist_snapshot-Left counts calls.persist

    pre_flight_step-Left :
        (answer : Option Error) → LeftBy (pre_flight_step text_of_error calls row e' t' db answer)
    pre_flight_step-Left (some cause) = fail-Left cause e' t' db h runs opened
    pre_flight_step-Left none = snapshot_step-Left (snapshot_counts calls)

  module _ (db : Db) (h : Held e t db) (runs : e.status ≡ executing)
      (opened : is_open t.status ≡ true) where
    with_execution-Left :
        LeftBy (with_execution text_of_error calls row t db (get row.execution_id db.executions))
    with_execution-Left =
        subst (λ o. LeftBy (with_execution text_of_error calls row t db o))
          (sym (execution_found e t db h))
          (by_test LeftBy calls.task_update_fails
            (fail_execution_attempt text_of_error calls row.task_id row.execution_id db_error db) _
            (λ _. fail-Left db_error e t db h runs opened)
            (λ _.
              pre_flight_step-Left e (with_status task_executing e.requested_by t)
                (put_task row.task_id (with_status task_executing e.requested_by t) db)
                (Held-task e t task_executing e.requested_by db h) runs refl calls.pre_flight))

    with_task-Left : LeftBy (with_task text_of_error calls row db (get row.task_id db.tasks))
    with_task-Left =
        subst (λ o. LeftBy (with_task text_of_error calls row db o)) (sym (task_found e t db h))
          (by_test LeftBy calls.execution_read_fails
            (fail_execution_attempt text_of_error calls row.task_id row.execution_id db_error db) _
            (λ _. fail-Left db_error e t db h runs opened) (λ _. with_execution-Left))

    pub claimed_attempt-Left : LeftBy (claimed_attempt text_of_error calls row db)
    unfolding claimed_attempt
    claimed_attempt-Left =
        by_test LeftBy calls.task_read_fails
          (fail_execution_attempt text_of_error calls row.task_id row.execution_id db_error db) _
          (λ _. fail-Left db_error e t db h runs opened) (λ _. with_task-Left)

  pub start-Held :
      get row.execution_id start.executions ≡ some e
      → get row.task_id start.tasks ≡ some t
      → Held e t start
  start-Held found found_task = record {
    written = (
      λ j. unwritten row.execution_id j e (λ n. get n start.executions) found,
      λ j. unwritten row.task_id j t (λ n. get n start.tasks) found_task,
    );
    same_task = refl;
    same_root = refl;
    same_version = refl;
    keys = λ u. u;
  }
