-- ===== src/OjTask/Lifecycle/Change.antt =====
-- ojTaskSvc.go and ojTaskDispatcher.go: what one step may do to a task and its execution, as a relation
-- between the tables before and after.
use personal_assistant.Base.{
  ℕ, nat_eq, nat_eq_iff, ◌≡◌, ◌<◌, ◌⊎◌, inl, inr, refl, Bool, true, false, List, [], ◌∷◌, Option,
  none, some, if◌then◌else◌, nat_key, Bool-cases, by_test, subst, arith,
}
use personal_assistant.Base.Maps.{Map, get, put, get-put, Unique}
use personal_assistant.OjTask.Types.{
  ExecutionStatus, scheduled, queued, executing, succeeded, failed, cancelled, TaskStatus,
  task_scheduled, task_queued, task_executing, task_succeeded, task_failed, task_deleted, Execution,
  Task, Db,
}
use personal_assistant.OjTask.Lifecycle.Store.{ItemRow, IntakeRow, Store}

-- A task that is neither done nor deleted.
abbrev pub is_open : TaskStatus → Bool
is_open task_scheduled = true
is_open task_queued = true
is_open task_executing = true
is_open task_succeeded = false
is_open task_failed = false
is_open task_deleted = false

-- Which statuses of an execution and of its task go together. An execution that failed may leave its
-- task as it was, since the marking of the task may fail.
abbrev pub agrees : ExecutionStatus → TaskStatus → Bool
agrees scheduled task_scheduled = true
agrees scheduled task_queued = false
agrees scheduled task_executing = false
agrees scheduled task_succeeded = false
agrees scheduled task_failed = false
agrees scheduled task_deleted = false
agrees queued task_scheduled = false
agrees queued task_queued = true
agrees queued task_executing = false
agrees queued task_succeeded = false
agrees queued task_failed = false
agrees queued task_deleted = false
agrees executing task_scheduled = true
agrees executing task_queued = true
agrees executing task_executing = true
agrees executing task_succeeded = false
agrees executing task_failed = false
agrees executing task_deleted = false
agrees succeeded task_scheduled = false
agrees succeeded task_queued = false
agrees succeeded task_executing = false
agrees succeeded task_succeeded = true
agrees succeeded task_failed = false
agrees succeeded task_deleted = false
agrees failed task_scheduled = true
agrees failed task_queued = true
agrees failed task_executing = true
agrees failed task_succeeded = false
agrees failed task_failed = true
agrees failed task_deleted = false
agrees cancelled task_scheduled = false
agrees cancelled task_queued = false
agrees cancelled task_executing = false
agrees cancelled task_succeeded = false
agrees cancelled task_failed = false
agrees cancelled task_deleted = true

-- An execution whose status no step leaves.
abbrev pub is_final : ExecutionStatus → Bool
is_final scheduled = false
is_final queued = false
is_final executing = false
is_final succeeded = true
is_final failed = true
is_final cancelled = true

abbrev pub Has : ℕ × ℕ → List (ℕ × ℕ) → Type 0
Has x [] = ⊥
Has x (y ∷ ys) = (x ≡ y) ⊎ Has x ys

-- The tables differ in one execution and one task at most, and these are as given.
abbrev pub Written : ℕ → ℕ → Execution → Task → Db → Db → Type 0
Written x k e t before after =
    ((j : ℕ) → get j after.executions ≡ (if nat_eq x j then some e else get j before.executions))
    × ((j : ℕ) → get j after.tasks ≡ (if nat_eq k j then some t else get j before.tasks))

-- Every trigger that was published is still there.
abbrev pub Kept : Store → Store → Type 0
Kept before after = (p : ℕ × ℕ) → Has p before.triggers → Has p after.triggers

-- A step of an execution that was there with its task.
pub record Moves (s s' : Store) (x : ℕ) (e e' : Execution) (t t' : Task) : Type 0 where
  pub found : get x s.db.executions ≡ some e
  pub found_task : get e.task_id s.db.tasks ≡ some t
  pub live : is_final e.status ≡ false
  pub written : Written x e.task_id e' t' s.db s'.db
  pub keys : Unique s.db.executions → Unique s'.db.executions
  pub same_task : e'.task_id ≡ e.task_id
  pub same_root : t'.root_task_id ≡ t.root_task_id
  pub same_version : t'.version_no ≡ t.version_no
  pub agree : agrees e'.status t'.status ≡ true
  pub told : e'.status ≡ queued → (e.status ≡ queued) ⊎ Has (x, e.task_id) s'.triggers
  pub kept : Kept s s'

abbrev pub RootIs : ℕ → Db → Option ℕ → Type 0
RootIs k db root = (r : ℕ) × (root ≡ some r) × ((r ≡ k) ⊎ ((u : Task) × (get r db.tasks ≡ some u)))

-- A new version of a task, with its execution.
pub record Creates (s s' : Store) (x k : ℕ) (e : Execution) (t : Task) : Type 0 where
  pub fresh : get x s.db.executions ≡ none
  pub fresh_task : get k s.db.tasks ≡ none
  pub positive : (0 < x) × (0 < k)
  pub written : Written x k e t s.db s'.db
  pub keys : Unique s.db.executions → Unique s'.db.executions
  pub of_task : e.task_id ≡ k
  pub agree : agrees e.status t.status ≡ true
  pub told : e.status ≡ queued → Has (x, k) s'.triggers
  pub kept : Kept s s'
  pub root : RootIs k s.db t.root_task_id
  pub newest :
      (j : ℕ) (u : Task)
      → get j s.db.tasks ≡ some u
      → u.root_task_id ≡ t.root_task_id
      → u.version_no < t.version_no

pub data Change (s s' : Store) : Type 0 where
  unchanged : s' ≡ s → Change s s'
  rows_only :
      (items : Map ℕ (List ItemRow)) (intakes : Map ℕ (List IntakeRow))
      → s' ≡ record s { items = items; intakes = intakes }
      → Change s s'
  moved : (x : ℕ) (e e' : Execution) (t t' : Task) → Moves s s' x e e' t t' → Change s s'
  created : (x k : ℕ) (e : Execution) (t : Task) → Creates s s' x k e t → Change s s'

-- What is found after a write is what was written, or was there before.
pub read_back {ℓ} :
    {V : Type ℓ} (x j : ℕ) (v w : V) (after before : Option V)
    → after ≡ (if nat_eq x j then some v else before)
    → after ≡ some w
    → ((x ≡ j) × (v ≡ w)) ⊎ ((nat_eq x j ≡ false) × (before ≡ some w))
read_back x j v w after before written found = elim (Bool-cases (nat_eq x j)) [
  | inl q ↦ inl ((nat_eq_iff x j).0 q, ground (arith, q, written, found))
  | inr q ↦ inr (q, ground (arith, q, written, found))
]

pub write_self {ℓ} :
    {V : Type ℓ} (x : ℕ) (v : V) (after before : Option V)
    → after ≡ (if nat_eq x x then some v else before)
    → after ≡ some v
write_self x v after before written = ground (arith, written, nat_eq_iff x x)

pub write_other {ℓ} :
    {V : Type ℓ} (x j : ℕ) (v : V) (after before : Option V)
    → nat_eq x j ≡ false
    → after ≡ (if nat_eq x j then some v else before)
    → after ≡ before
write_other x j v after before apart written = ground (arith, written, apart)

pub put-Written :
    (x k : ℕ) (e : Execution) (t : Task) (db : Db)
    → Written x k e t db (record { executions = put x e db.executions; tasks = put k t db.tasks })
put-Written x k e t db = (λ j. get-put x j e db.executions, λ j. get-put k j t db.tasks)

-- To write what is there changes nothing.
pub unwritten :
    {V : Type 0} (x j : ℕ) (v : V) (read : ℕ → Option V)
    → read x ≡ some v
    → read j ≡ (if nat_eq x j then some v else read j)
unwritten x j v read there =
    by_test (λ o. read j ≡ o) (nat_eq x j) (some v) (read j)
      (λ q. subst (λ n. read n ≡ some v) ((nat_eq_iff x j).0 q) there) (λ _. refl)
