-- ===== src/OjTask/Lifecycle/Paired.antt =====
-- ojTaskSvc.go and ojTaskDispatcher.go: in the tables that are reached each task has its execution, and
-- the versions of a task have numbers of their own.
use personal_assistant.Base.{
  ℕ, nat_eq, nat_eq_iff, ◌≡◌, ◌⊎◌, sym, ap, subst, ◌∙◌, refl, Bool, true, false, some, inl, inr,
  nat_key, Bool-cases, [], ◌∷◌,
}
use personal_assistant.Base.Maps.{Map, get}
use personal_assistant.Base.Text.{Text}
use personal_assistant.OjTask.Types.{
  Error, ExecutionStatus, scheduled, queued, executing, succeeded, failed, cancelled, Execution,
  Task,
}
use personal_assistant.OjTask.Lifecycle.Store.{Store, find_by_task}
use personal_assistant.OjTask.Lifecycle.Change.{agrees, Has}
use personal_assistant.OjTask.Lifecycle.Edited.{find_by_task-get}
use personal_assistant.OjTask.Lifecycle.Reached.{
  empty_store, Reach, empty-IsConsistent, Reach-IsConsistent,
}

-- If a task has an execution, then one is found.
find_by_task_total :
    (k x : ℕ) (e : Execution) (m : Map ℕ Execution)
    → get x m ≡ some e
    → e.task_id ≡ k
    → (y : ℕ) × (f : Execution) × (find_by_task k m ≡ some (y, f))
unfolding find_by_task get
find_by_task_total k x e [] found same = absurd (cc)
find_by_task_total k x e ((y, f) ∷ rest) found same = elim (Bool-cases (nat_eq f.task_id k)) [
  | inl q ↦ (y, f, rw q refl)
  | inr q ↦ elim (Bool-cases (nat_eq y x)) [
    | inl here ↦
        let row : some f ≡ some e = rw here at found in
        let same_row : f ≡ e = cc row in
        absurd
          (cc (q, (nat_eq_iff f.task_id k).1 (ap (λ (g : Execution). g.task_id) same_row ∙ same)))
    | inr other ↦
        let (z, g, there) = find_by_task_total k x e rest (rw other at found) same in
        (z, g, rw q there)
  ]
]

abbrev pub is_queued : ExecutionStatus → Bool
is_queued scheduled = false
is_queued queued = true
is_queued executing = false
is_queued succeeded = false
is_queued failed = false
is_queued cancelled = false

queued_status : (status : ExecutionStatus) → is_queued status ≡ true → status ≡ queued
queued_status scheduled q = absurd (cc)
queued_status queued q = refl
queued_status executing q = absurd (cc)
queued_status succeeded q = absurd (cc)
queued_status failed q = absurd (cc)
queued_status cancelled q = absurd (cc)

-- The execution that GetByTaskID finds: it is the task's, its status goes with the task's, and if it is
-- queued, then its trigger was published.
abbrev pub ItsExecution : ℕ → Task → Store → ℕ → Execution → Type 0
ItsExecution k t s x e =
    (find_by_task k s.db.executions ≡ some (x, e))
    × (get x s.db.executions ≡ some e)
    × (e.task_id ≡ k)
    × (agrees e.status t.status ≡ true)
    × ((is_queued e.status ≡ false) ⊎ Has (x, k) s.triggers)

module _ (text_of_error : Error → Text) {s : Store} (past : Reach text_of_error empty_store s) where
  -- In tables that any sequence of operations on tasks, of new questions, and of claims and
  -- attempts at executions, with whatever failures, has led to, GetByTaskID finds for each task
  -- an execution that is the task's; their statuses go together (scheduled with scheduled,
  -- queued with queued, succeeded with succeeded, cancelled with deleted; the task of an
  -- execution that runs is scheduled, queued or executing, and that of one that failed is
  -- failed or one of these three); and if the execution is queued, then its trigger was
  -- published.
  pub task-ItsExecution :
      (k : ℕ) (t : Task)
      → get k s.db.tasks ≡ some t
      → (x : ℕ) × (e : Execution) × ItsExecution k t s x e
  task-ItsExecution k t there =
      let c = Reach-IsConsistent text_of_error empty-IsConsistent past in
      let (x, e, found, of_task) = c.has_execution k t there in
      let (y, f, by_task) = find_by_task_total k x e s.db.executions found of_task in
      let (row, same) = find_by_task-get k y f s.db.executions c.keys by_task in
      let (u, its, agree) = c.has_task y f row in
      let tasks : some u ≡ some t = sym its ∙ (ap (λ n. get n s.db.tasks) same ∙ there) in
      (
        y,
        f,
        (
          by_task,
          row,
          same,
          ap (λ (v : Task). agrees f.status v.status) (sym (unwrap tasks)) ∙ agree,
          elim (Bool-cases (is_queued f.status)) [
            | inl q ↦ inr (
                subst (λ n. Has (y, n) s.triggers) same (c.told y f row (queued_status f.status q)))
            | inr q ↦ inl q
          ],
        ),
      )
    where
      unwrap : {u v : Task} → some u ≡ some v → u ≡ v
      unwrap q = cc

  -- In tables that any sequence of operations on tasks, of new questions, and of claims and
  -- attempts at executions has led to, two tasks with the same root and the same version number
  -- are one task.
  pub versions_distinct :
      (j k : ℕ) (t u : Task)
      → get j s.db.tasks ≡ some t
      → get k s.db.tasks ≡ some u
      → t.root_task_id ≡ u.root_task_id
      → t.version_no ≡ u.version_no
      → j ≡ k
  versions_distinct = (Reach-IsConsistent text_of_error empty-IsConsistent past).distinct
