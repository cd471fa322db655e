-- ===== src/OjTask/Lifecycle/Consistent.antt =====
-- ojTaskSvc.go and ojTaskDispatcher.go: the invariant of the tables of tasks and executions.
use personal_assistant.Base.{ℕ, ◌≡◌, ◌<◌, some, true, nat_key}
use personal_assistant.Base.Maps.{get, Unique}
use personal_assistant.OjTask.Types.{queued, Execution, Task, Db}
use personal_assistant.OjTask.Lifecycle.Store.{Store}
use personal_assistant.OjTask.Lifecycle.Change.{agrees, Has}

-- The execution's task is there, and their statuses go together.
abbrev pub HasTask : Db → Execution → Type 0
HasTask db e = (t : Task) × (get e.task_id db.tasks ≡ some t) × (agrees e.status t.status ≡ true)

abbrev pub HasExecution : Db → ℕ → Type 0
HasExecution db k = (x : ℕ) × (e : Execution) × (get x db.executions ≡ some e) × (e.task_id ≡ k)

abbrev pub IsRooted : Db → Task → Type 0
IsRooted db t = (r : ℕ) × (u : Task) × (t.root_task_id ≡ some r) × (get r db.tasks ≡ some u)

pub record IsConsistent (s : Store) : Type 0 where
  pub keys : Unique s.db.executions
  pub positive :
      (x : ℕ) (e : Execution) → get x s.db.executions ≡ some e → (0 < x) × (0 < e.task_id)
  pub has_task : (x : ℕ) (e : Execution) → get x s.db.executions ≡ some e → HasTask s.db e
  pub one_each :
      (x y : ℕ) (e f : Execution)
      → get x s.db.executions ≡ some e
      → get y s.db.executions ≡ some f
      → e.task_id ≡ f.task_id
      → x ≡ y
  pub has_execution : (k : ℕ) (t : Task) → get k s.db.tasks ≡ some t → HasExecution s.db k
  pub told :
      (x : ℕ) (e : Execution)
      → get x s.db.executions ≡ some e
      → e.status ≡ queued
      → Has (x, e.task_id) s.triggers
  pub rooted : (k : ℕ) (t : Task) → get k s.db.tasks ≡ some t → IsRooted s.db t
  pub distinct :
      (j k : ℕ) (t u : Task)
      → get j s.db.tasks ≡ some t
      → get k s.db.tasks ≡ some u
      → t.root_task_id ≡ u.root_task_id
      → t.version_no ≡ u.version_no
      → j ≡ k
