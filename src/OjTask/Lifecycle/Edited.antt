-- ===== src/OjTask/Lifecycle/Edited.antt =====
-- ojTaskSvc.go: what UpdateTask, DeleteTask and ExecuteTaskNow do to the tables.
use personal_assistant.Base.{
  ℕ, nat_eq, nat_eq_iff, ◌≡◌, ◌<◌, inl, inr, refl, sym, ap, subst, ◌∙◌, Bool, true, not, ◌&&◌, ◌||◌,
  Option, none, some, nat_key, Bool-cases, by_test, of_not, [], ◌∷◌, arith,
}
use personal_assistant.Base.Maps.{Map, get, Unique, put-Unique, get-head, get-tail}
use personal_assistant.Base.Result.{Result, ok, err, Yields, yields_then, yields_skip}
use personal_assistant.OjTask.Types.{
  Error, ExecutionStatus, scheduled, queued, executing, succeeded, failed, cancelled, Execution,
  Task, Db,
}
use personal_assistant.OjTask.Lifecycle.Draft.{TaskReq, validate_draft}
use personal_assistant.OjTask.Lifecycle.Materialize.{materialize_draft}
use personal_assistant.OjTask.Lifecycle.Store.{
  Store, Outside, commit, read_task, read_execution, read_orgs, write_task, write_orgs, write_items,
  write_intakes, write_execution, publish, call, find_by_task, authorize_manage_org_ids,
  publish_queued_execution_trigger, put_pair, settled,
}
use personal_assistant.OjTask.Lifecycle.Edit.{
  Editable, is_deferred, is_planned_task, is_planned_execution, is_editable, is_deleted_task,
  editable_pair, editable_task, load_editable_scheduled_task, merge_uint_slices, the_execute_at,
  updated_task, updated_execution, deleted_task, cancelled_execution, queued_task, queued_execution,
  update_task, delete_task, execute_task_now,
}
use personal_assistant.OjTask.Lifecycle.Change.{
  agrees, is_final, Has, Kept, Change, unchanged, moved, put-Written, Written,
}
use personal_assistant.OjTask.Lifecycle.Consistent.{IsConsistent}

-- A transaction that fails leaves the tables alone.
pub settled-Change {ℓ} :
    {A : Type ℓ} (outside : Outside) (s : Store) (m : Result Error (A × Store))
    → Yields m (λ step. Change s step.1)
    → Change s (settled outside s m).1
settled-Change outside s (err cause) h = unchanged refl
settled-Change outside s (ok step) h =
    by_test (λ (done : Result Error _ × Store). Change s done.1) (outside.fails commit) _ _
      (λ _. unchanged refl) (λ _. h)

pub find_by_task-get :
    (k x : ℕ) (e : Execution) (m : Map ℕ Execution)
    → Unique m
    → find_by_task k m ≡ some (x, e)
    → (get x m ≡ some e) × (e.task_id ≡ k)
unfolding find_by_task
find_by_task-get k x e [] u q = absurd (cc)
find_by_task-get k x e ((y, f) ∷ rest) u q = elim (Bool-cases (nat_eq f.task_id k)) [
  | inl same ↦
      let here : some (y, f) ≡ some (x, e) = rw same at q in
      let key : y ≡ x = cc here in
      let row : f ≡ e = cc here in
      (
        subst (λ n. get n ((y, f) ∷ rest) ≡ some e) key
            (subst (λ g. get y ((y, f) ∷ rest) ≡ some g) row (get-head y f rest)),
        ap (λ g. g.task_id) (sym row) ∙ (nat_eq_iff f.task_id k).0 same,
      )
  | inr other ↦
      let (there, of_task) = find_by_task-get k x e rest u.1 (rw other at q) in
      (get-tail y x f e rest u.0 there, of_task)
]

-- What a task that may be edited was found as.
pub record IsLoaded (k : ℕ) (s : Store) (found : Editable) : Type 0 where
  pub there : get found.execution_id s.db.executions ≡ some found.execution
  pub task_there : get k s.db.tasks ≡ some found.task
  pub of_task : found.execution.task_id ≡ k
  pub planned : is_editable found.task found.execution ≡ true

module _ (outside : Outside) (k : ℕ) (s : Store) (keys : Unique s.db.executions) where
  editable_pair-IsLoaded :
      (task : Task) (o : Option (ℕ × Execution))
      → get k s.db.tasks ≡ some task
      → find_by_task k s.db.executions ≡ o
      → Yields (editable_pair outside k task s o) (IsLoaded k s)
  editable_pair-IsLoaded task none there q = tt
  editable_pair-IsLoaded task (some (x, e)) there q =
      by_test (λ (r : Result Error Editable). Yields r (IsLoaded k s)) (not (is_editable task e)) _
        _ (λ _. tt)
        (λ planned. yields_skip (call outside read_orgs) _ (IsLoaded k s) (λ _. record {
          there = (find_by_task-get k x e s.db.executions keys q).0;
          task_there = there;
          of_task = (find_by_task-get k x e s.db.executions keys q).1;
          planned = of_not (is_editable task e) planned;
        }))

  editable_task-IsLoaded :
      (o : Option Task) → get k s.db.tasks ≡ o → Yields (editable_task outside k s o) (IsLoaded k s)
  editable_task-IsLoaded none q = tt
  editable_task-IsLoaded (some task) q =
      by_test (λ (r : Result Error Editable). Yields r (IsLoaded k s)) (is_deleted_task task.status)
        _ _ (λ _. tt)
        (λ _.
          yields_skip (call outside read_execution) _ (IsLoaded k s)
            (λ _. editable_pair-IsLoaded task (find_by_task k s.db.executions) q refl))

  pub load-IsLoaded : Yields (load_editable_scheduled_task outside k s) (IsLoaded k s)
  unfolding load_editable_scheduled_task
  load-IsLoaded =
      yields_skip (call outside read_task) _ (IsLoaded k s)
        (λ _. editable_task-IsLoaded (get k s.db.tasks) refl)

-- What the publisher does to the tables: a trigger, unless an id is zero.
abbrev pub Published : ℕ → ℕ → Store → Store → Type 0
Published x k s s' = (s'.db ≡ s.db) × Kept s s' × (0 < x → 0 < k → Has (x, k) s'.triggers)

pub publish-Published :
    (outside : Outside) (x k : ℕ) (s : Store)
    → Yields (publish_queued_execution_trigger outside x k s) (Published x k s)
publish-Published outside x k s =
    by_test (λ (r : Result Error Store). Yields r (Published x k s)) (nat_eq x 0 || nat_eq k 0) _ _
      (λ zero_id. (refl, (λ p h. h), λ p q. absurd (ground (arith, zero_id))))
      (λ _.
        by_test (λ (r : Result Error Store). Yields r (Published x k s)) (not outside.has_publisher)
          _ _ (λ _. tt)
          (λ _.
            yields_skip (call outside publish) _ (Published x k s)
              (λ _. (refl, (λ p h. inr h), λ p q. inl refl))))

planned_status :
    (status : ExecutionStatus) → is_planned_execution status ≡ true → status ≡ scheduled
planned_status scheduled h = refl
planned_status queued h = absurd (cc)
planned_status executing h = absurd (cc)
planned_status succeeded h = absurd (cc)
planned_status failed h = absurd (cc)
planned_status cancelled h = absurd (cc)

third : (a b c : Bool) → (a && b && c) ≡ true → c ≡ true
third a b c h = ground arith

module _ (k : ℕ) (s : Store) (found : Editable) (l : IsLoaded k s found) where
  pub is_scheduled : found.execution.status ≡ scheduled
  is_scheduled = planned_status found.execution.status (
      third (is_deferred found.task.mode) (is_planned_task found.task.status)
        (is_planned_execution found.execution.status) l.planned)

  pub its_task : get found.execution.task_id s.db.tasks ≡ some found.task
  its_task = ap (λ n. get n s.db.tasks) l.of_task ∙ l.task_there

  pub statuses_agree : IsConsistent s → agrees found.execution.status found.task.status ≡ true
  statuses_agree c =
      let (u, there, agree) = c.has_task found.execution_id found.execution l.there in
      ground (arith, there, its_task, agree)

-- A write of a planned execution and its task is a step.
module _ (k : ℕ) (s s' : Store) (found : Editable) (l : IsLoaded k s found) where
  pub edited-Change :
      (e' : Execution) (t' : Task)
      → s'.db ≡ (put_pair found.execution_id k e' t' s).db
      → e'.task_id ≡ found.execution.task_id
      → t'.root_task_id ≡ found.task.root_task_id
      → t'.version_no ≡ found.task.version_no
      → agrees e'.status t'.status ≡ true
      → (e'.status ≡ queued → Has (found.execution_id, k) s'.triggers)
      → Kept s s'
      → Change s s'
  edited-Change e' t' db same_task same_root same_version agree told kept =
      moved found.execution_id found.execution e' found.task t' (record {
        found = l.there;
        found_task = its_task k s found l;
        live = ap is_final (is_scheduled k s found l);
        written =
            subst
              (λ (after : Db). Written found.execution_id found.execution.task_id e' t' s.db after)
              (sym db)
              (subst
                (λ n.
                  Written found.execution_id n e' t' s.db
                    (put_pair found.execution_id k e' t' s).db)
                (sym l.of_task) (put-Written found.execution_id k e' t' s.db));
        keys = λ u.
            subst (λ (after : Db). Unique after.executions) (sym db)
              (put-Unique found.execution_id e' s.db.executions u);
        same_task = same_task;
        same_root = same_root;
        same_version = same_version;
        agree = agree;
        told = λ q.
            inr (subst (λ n. Has (found.execution_id, n) s'.triggers) (sym l.of_task) (told q));
        kept = kept;
      })

abbrev pub Changes {ℓ} : {A : Type ℓ} → Store → A × Store → Type 0
Changes s step = Change s step.1

never_both : scheduled ≡ queued → ⊥
never_both q = cc

module _ (outside : Outside) (operator k : ℕ) (s : Store) (c : IsConsistent s) where
  pub update_task-Change : (req : TaskReq) → Change s (update_task outside operator k req s).1
  unfolding update_task
  update_task-Change req = settled-Change outside s _ (
      yields_skip (validate_draft outside.org outside.now req) _ (Changes s) λ draft.
        yields_then (load_editable_scheduled_task outside k s) _ (IsLoaded k s) (Changes s)
          (load-IsLoaded outside k s c.keys)
          λ found l.
            yields_skip
              (authorize_manage_org_ids outside operator
                (merge_uint_slices found.org_ids draft.org_ids))
              _ (Changes s)
              λ _. yields_skip (the_execute_at draft.execute_at) _ (Changes s) λ at.
                yields_skip (materialize_draft outside.questions draft) _ (Changes s)
                  λ materialized. yields_skip (call outside write_task) _ (Changes s) λ _.
                    yields_skip (call outside write_orgs) _ (Changes s) λ _.
                      yields_skip (call outside write_items) _ (Changes s) λ _.
                        yields_skip (call outside write_intakes) _ (Changes s) λ _.
                          yields_skip (call outside write_execution) _ (Changes s) λ _.
                            edited-Change k s _ found l
                              (updated_execution operator at found.execution)
                              (updated_task operator materialized found.task) refl refl refl refl
                              (statuses_agree k s found l c)
                              (λ q. absurd (never_both (sym (is_scheduled k s found l) ∙ q)))
                              (λ p h. h))

  pub delete_task-Change : Change s (delete_task outside operator k s).1
  unfolding delete_task
  delete_task-Change = settled-Change outside s _ (
      yields_then (load_editable_scheduled_task outside k s) _ (IsLoaded k s) (Changes s)
        (load-IsLoaded outside k s c.keys)
        λ found l.
          yields_skip (authorize_manage_org_ids outside operator found.org_ids) _ (Changes s) λ _.
            yields_skip (call outside write_task) _ (Changes s) λ _.
              yields_skip (call outside write_execution) _ (Changes s) λ _.
                edited-Change k s _ found l (cancelled_execution outside found.execution)
                  (deleted_task operator found.task) refl refl refl refl refl (λ q. absurd (cc))
                  (λ p h. h))

  pub execute_task_now-Change : Change s (execute_task_now outside operator k s).1
  unfolding execute_task_now
  execute_task_now-Change = settled-Change outside s _ (
      yields_then (load_editable_scheduled_task outside k s) _ (IsLoaded k s) (Changes s)
        (load-IsLoaded outside k s c.keys)
        λ found l.
          yields_skip (authorize_manage_org_ids outside operator found.org_ids) _ (Changes s) λ _.
            yields_skip (call outside write_task) _ (Changes s) λ _.
              yields_skip (call outside write_execution) _ (Changes s) λ _.
                yields_then _ _
                  (Published found.execution_id k (
                    put_pair found.execution_id k
                      (queued_execution outside operator found.execution)
                      (queued_task operator found.task) s))
                  (Changes s)
                  (publish-Published outside found.execution_id k (
                    put_pair found.execution_id k
                      (queued_execution outside operator found.execution)
                      (queued_task operator found.task) s))
                  λ after done.
                    let ids = c.positive found.execution_id found.execution l.there in
                    edited-Change k s after found l
                      (queued_execution outside operator found.execution)
                      (queued_task operator found.task) done.0 refl refl refl refl
                      (λ q. done.2 ids.0 (subst (λ n. 0 < n) l.of_task ids.1)) done.1)
