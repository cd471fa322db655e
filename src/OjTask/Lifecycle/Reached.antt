-- ===== src/OjTask/Lifecycle/Reached.antt =====
-- ojTaskSvc.go and ojTaskDispatcher.go: the tables under any sequence of operations and attempts. An
-- attempt is its claim and, later, the rest; operations and attempts at other tasks come between.
use personal_assistant.Base.{
  ℕ, ◌≡◌, refl, sym, ap, subst, ◌∙◌, true, false, Option, none, some, nat_key, by_test, List, [],
}
use personal_assistant.Base.Maps.{Map, get, get-put, put-Unique}
use personal_assistant.Base.Text.{Text}
use personal_assistant.OjTask.Types.{
  Error, is_dispatchable, ExecutionStatus, scheduled, queued, executing, succeeded, failed,
  cancelled, TaskStatus, task_scheduled, task_queued, task_executing, task_succeeded, task_failed,
  task_deleted, Execution, Db,
}
use personal_assistant.OjTask.Dispatch.{
  Calls, DispatchRow, claimable, claim_found, claim_execution, claimed_attempt,
}
use personal_assistant.OjTask.Lifecycle.Draft.{TaskReq}
use personal_assistant.OjTask.Lifecycle.Store.{ItemRow, IntakeRow, Store, Outside}
use personal_assistant.OjTask.Lifecycle.Create.{create_task}
use personal_assistant.OjTask.Lifecycle.Edit.{update_task, delete_task, execute_task_now}
use personal_assistant.OjTask.Lifecycle.Versions.{revise_task, retry_task}
use personal_assistant.OjTask.Lifecycle.Upserted.{
  Rows, Upserts, upserted_rows, settled_rows, handle_question_upserted,
}
use personal_assistant.Base.Result.{Result, ok, err}
use personal_assistant.OjTask.Lifecycle.Change.{
  is_open, agrees, is_final, Written, unwritten, Change, unchanged, rows_only, moved, created,
}
use personal_assistant.OjTask.Lifecycle.Consistent.{IsConsistent}
use personal_assistant.OjTask.Lifecycle.Moved.{moved-IsConsistent}
use personal_assistant.OjTask.Lifecycle.Created.{created-IsConsistent}
use personal_assistant.OjTask.Lifecycle.Edited.{
  update_task-Change, delete_task-Change, execute_task_now-Change,
}
use personal_assistant.OjTask.Lifecycle.Chains.{IsFresh}
use personal_assistant.OjTask.Lifecycle.Versioned.{
  create_task-Change, revise_task-Change, retry_task-Change,
}
use personal_assistant.OjTask.Lifecycle.Attempts.{
  executing_agrees, executing-ne-queued, claimed_attempt-Left, start-Held,
}

abbrev pub empty_store : Store
empty_store = record {
  db = record { executions = []; tasks = [] };
  orgs = [];
  items = [];
  intakes = [];
  triggers = [];
}

-- The check before the start of an attempt may match items anew, so their rows are arbitrary after it.
abbrev pub after_attempt : Db → Map ℕ (List ItemRow) → Map ℕ (List IntakeRow) → Store → Store
after_attempt db items intakes s = record s { db = db; items = items; intakes = intakes }

abbrev pub with_db : Db → Store → Store
with_db db s = record s { db = db }

module _ (text_of_error : Error → Text) where
  pub data Step (s : Store) : Store → Type 0 where
    plan :
        (outside : Outside) (operator : ℕ) (req : TaskReq)
        → IsFresh outside s
        → Step s (create_task outside operator req s).1
    update :
        (outside : Outside) (operator task : ℕ) (req : TaskReq)
        → Step s (update_task outside operator task req s).1
    delete :
        (outside : Outside) (operator task : ℕ) → Step s (delete_task outside operator task s).1
    execute_now :
        (outside : Outside) (operator task : ℕ)
        → Step s (execute_task_now outside operator task s).1
    revise :
        (outside : Outside) (operator task : ℕ) (req : TaskReq)
        → IsFresh outside s
        → Step s (revise_task outside operator task req s).1
    retry :
        (outside : Outside) (operator task : ℕ)
        → IsFresh outside s
        → Step s (retry_task outside operator task s).1
    upsert :
        (upserts : Upserts) (platform title : Text)
        → Step s (handle_question_upserted upserts platform title s).1
    claim : (execution now : ℕ) → Step s (with_db (claim_execution execution now s.db).1 s)
    attempt :
        (calls : Calls) (row : DispatchRow) (e : Execution) (items : Map ℕ (List ItemRow))
        (intakes : Map ℕ (List IntakeRow))
        → get row.execution_id s.db.executions ≡ some e
        → row.task_id ≡ e.task_id
        → e.status ≡ executing
        → Step s (after_attempt (claimed_attempt text_of_error calls row s.db).1 items intakes s)

  pub data Reach (s : Store) : Store → Type 0 where
    here : Reach s s
    next : {u v : Store} → Reach s u → Step u v → Reach s v

handle_question_upserted-Change :
    (upserts : Upserts) (platform title : Text) (s : Store)
    → Change s (handle_question_upserted upserts platform title s).1
unfolding handle_question_upserted
handle_question_upserted-Change upserts platform title s =
    leaves (upserted_rows upserts platform title s)
  where
    leaves : (r : Result Error Rows) → Change s (settled_rows s r).1
    leaves (err cause) = unchanged refl
    leaves (ok (items, intakes)) = rows_only items intakes refl

waits_open :
    (status : ExecutionStatus) (task : TaskStatus)
    → is_dispatchable status ≡ true
    → agrees status task ≡ true
    → is_open task ≡ true
waits_open scheduled task_scheduled d a = refl
waits_open scheduled task_queued d a = absurd (cc)
waits_open scheduled task_executing d a = absurd (cc)
waits_open scheduled task_succeeded d a = absurd (cc)
waits_open scheduled task_failed d a = absurd (cc)
waits_open scheduled task_deleted d a = absurd (cc)
waits_open queued task_scheduled d a = absurd (cc)
waits_open queued task_queued d a = refl
waits_open queued task_executing d a = absurd (cc)
waits_open queued task_succeeded d a = absurd (cc)
waits_open queued task_failed d a = absurd (cc)
waits_open queued task_deleted d a = absurd (cc)
waits_open executing task d a = absurd (cc)
waits_open succeeded task d a = absurd (cc)
waits_open failed task d a = absurd (cc)
waits_open cancelled task d a = absurd (cc)

waits_live : (status : ExecutionStatus) → is_dispatchable status ≡ true → is_final status ≡ false
waits_live scheduled d = refl
waits_live queued d = refl
waits_live executing d = absurd (cc)
waits_live succeeded d = absurd (cc)
waits_live failed d = absurd (cc)
waits_live cancelled d = absurd (cc)

pub claim-Change :
    (s : Store)
    → IsConsistent s
    → (id now : ℕ) → Change s (with_db (claim_execution id now s.db).1 s)
unfolding claim_execution
claim-Change s c id now = claimed (get id s.db.executions) refl
  where
    ClaimedAs : Option Execution → Type 0
    ClaimedAs o = Change s (with_db (claim_found id now s.db o).1 s)

    runs : Execution → Execution
    runs e = record e { started_at = some now; status = executing }

    claimed : (o : Option Execution) → get id s.db.executions ≡ o → ClaimedAs (claimable o)
    claimed none q = unchanged refl
    claimed (some e) q =
        by_test ClaimedAs (is_dispatchable e.status) (some e) none
          (λ waits.
            let (t, there, agree) = c.has_task id e q in
            moved id e (runs e) t t (record {
              found = q;
              found_task = there;
              live = waits_live e.status waits;
              written = (
                λ j. get-put id j (runs e) s.db.executions,
                λ j. unwritten e.task_id j t (λ n. get n s.db.tasks) there,
              );
              keys = λ u. put-Unique id (runs e) s.db.executions u;
              same_task = refl;
              same_root = refl;
              same_version = refl;
              agree = executing_agrees t.status (waits_open e.status t.status waits agree);
              told = λ is_queued. absurd (executing-ne-queued is_queued);
              kept = λ p h. h;
            }))
          (λ _. unchanged refl)

runs_open : (task : TaskStatus) → agrees executing task ≡ true → is_open task ≡ true
runs_open task_scheduled a = refl
runs_open task_queued a = refl
runs_open task_executing a = refl
runs_open task_succeeded a = absurd (cc)
runs_open task_failed a = absurd (cc)
runs_open task_deleted a = absurd (cc)

module _ (text_of_error : Error → Text) where
  attempt-Change :
      (s : Store) (calls : Calls) (row : DispatchRow) (e : Execution) (items : Map ℕ (List ItemRow))
      (intakes : Map ℕ (List IntakeRow))
      → IsConsistent s
      → get row.execution_id s.db.executions ≡ some e
      → row.task_id ≡ e.task_id
      → e.status ≡ executing
      → Change s (after_attempt (claimed_attempt text_of_error calls row s.db).1 items intakes s)
  attempt-Change s calls row e items intakes c found same runs =
      let (t, there, agree) = c.has_task row.execution_id e found in
      let opened : is_open t.status ≡ true =
        runs_open t.status (ap (λ w. agrees w t.status) (sym runs) ∙ agree) in
      let after = (claimed_attempt text_of_error calls row s.db).1 in
      let (e', t', h, agree', waits_not) =
        claimed_attempt-Left text_of_error calls row s.db e t s.db
          (start-Held text_of_error calls row s.db e t found
            (ap (λ n. get n s.db.tasks) same ∙ there))
          runs opened in
      moved row.execution_id e e' t t' (record {
        found = found;
        found_task = there;
        live = ap is_final runs;
        written = subst (λ n. Written row.execution_id n e' t' s.db after) same h.written;
        keys = h.keys;
        same_task = h.same_task;
        same_root = h.same_root;
        same_version = h.same_version;
        agree = agree';
        told = λ is_queued. absurd (waits_not is_queued);
        kept = λ p q. q;
      })

  -- Each step is a change of the abstract kind.
  pub Step-Change : {s s' : Store} → IsConsistent s → Step text_of_error s s' → Change s s'
  Step-Change c (plan outside operator req fresh) =
      create_task-Change outside operator _ c fresh req
  Step-Change c (update outside operator task req) =
      update_task-Change outside operator task _ c req
  Step-Change c (delete outside operator task) = delete_task-Change outside operator task _ c
  Step-Change c (execute_now outside operator task) =
      execute_task_now-Change outside operator task _ c
  Step-Change c (revise outside operator task req fresh) =
      revise_task-Change outside operator _ c fresh task req
  Step-Change c (retry outside operator task fresh) =
      retry_task-Change outside operator _ c fresh task
  Step-Change c (upsert upserts platform title) =
      handle_question_upserted-Change upserts platform title _
  Step-Change c (claim execution now) = claim-Change _ c execution now
  Step-Change c (attempt calls row e items intakes found same runs) =
      attempt-Change _ calls row e items intakes c found same runs

pub Change-IsConsistent : {s s' : Store} → IsConsistent s → Change s s' → IsConsistent s'
Change-IsConsistent c (unchanged same) = subst IsConsistent (sym same) c
Change-IsConsistent {s} c (rows_only items intakes same) = subst IsConsistent (sym same) (record {
  keys = c.keys;
  positive = c.positive;
  has_task = c.has_task;
  one_each = c.one_each;
  has_execution = c.has_execution;
  told = c.told;
  rooted = c.rooted;
  distinct = c.distinct;
})
Change-IsConsistent {s} {s'} c (moved x e e' t t' m) = moved-IsConsistent s s' x e e' t t' c m
Change-IsConsistent {s} {s'} c (created x k e t m) = created-IsConsistent s s' x k e t c m

pub empty-IsConsistent : IsConsistent empty_store
unfolding get
empty-IsConsistent = record {
  keys = tt;
  positive = λ x e found. absurd (cc);
  has_task = λ x e found. absurd (cc);
  one_each = λ x y e f found there same. absurd (cc);
  has_execution = λ k t found. absurd (cc);
  told = λ x e found is_queued. absurd (cc);
  rooted = λ k t found. absurd (cc);
  distinct = λ j k t u found there root version. absurd (cc);
}

module _ (text_of_error : Error → Text) where
  pub Reach-IsConsistent :
      {s s' : Store} → IsConsistent s → Reach text_of_error s s' → IsConsistent s'
  Reach-IsConsistent c here = c
  Reach-IsConsistent c (next r step) =
      let before = Reach-IsConsistent c r in
      Change-IsConsistent before (Step-Change text_of_error before step)
