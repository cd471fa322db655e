-- ===== src/OjTask/Lifecycle/Created.antt =====
-- ojTaskSvc.go: a new version of a task, with its execution, keeps the invariant.
use personal_assistant.Base.{
  ℕ, nat_eq, nat_eq_iff, ◌≡◌, ◌<◌, ◌⊎◌, inl, inr, sym, ap, subst, ◌∙◌, false, none, some, nat_key,
  Bool-cases, arith,
}
use personal_assistant.Base.Maps.{get}
use personal_assistant.OjTask.Types.{queued, Execution, Task}
use personal_assistant.OjTask.Lifecycle.Store.{Store}
use personal_assistant.OjTask.Lifecycle.Change.{
  Has, RootIs, Creates, read_back, write_self, write_other,
}
use personal_assistant.OjTask.Lifecycle.Consistent.{HasTask, HasExecution, IsRooted, IsConsistent}

module _ (s s' : Store) (x k : ℕ) (e : Execution) (t : Task) (c : IsConsistent s)
    (m : Creates s s' x k e t) where
  created_execution :
      (j : ℕ) (f : Execution)
      → get j s'.db.executions ≡ some f
      → ((x ≡ j) × (e ≡ f)) ⊎ ((nat_eq x j ≡ false) × (get j s.db.executions ≡ some f))
  created_execution j f found =
      read_back x j e f (get j s'.db.executions) (get j s.db.executions) (m.written.0 j) found

  created_task :
      (j : ℕ) (u : Task)
      → get j s'.db.tasks ≡ some u
      → ((k ≡ j) × (t ≡ u)) ⊎ ((nat_eq k j ≡ false) × (get j s.db.tasks ≡ some u))
  created_task j u found =
      read_back k j t u (get j s'.db.tasks) (get j s.db.tasks) (m.written.1 j) found

  new_there : get k s'.db.tasks ≡ some t
  new_there = write_self k t (get k s'.db.tasks) (get k s.db.tasks) (m.written.1 k)

  -- What was there before is still there.
  pub task_stays : (j : ℕ) (u : Task) → get j s.db.tasks ≡ some u → get j s'.db.tasks ≡ some u
  task_stays j u old = elim (Bool-cases (nat_eq k j)) [
    | inl q ↦ absurd (ground (arith, (nat_eq_iff k j).0 q, m.fresh_task, old))
    | inr q ↦ write_other k j t (get j s'.db.tasks) (get j s.db.tasks) q (m.written.1 j) ∙ old
  ]

  pub execution_stays :
      (j : ℕ) (f : Execution) → get j s.db.executions ≡ some f → get j s'.db.executions ≡ some f
  execution_stays j f old = elim (Bool-cases (nat_eq x j)) [
    | inl q ↦ absurd (ground (arith, (nat_eq_iff x j).0 q, m.fresh, old))
    | inr q ↦
        write_other x j e (get j s'.db.executions) (get j s.db.executions) q (m.written.0 j) ∙ old
  ]

  -- No execution that was there before is the new task's.
  not_new : (j : ℕ) (f : Execution) → get j s.db.executions ≡ some f → f.task_id ≡ k → ⊥
  not_new j f old same =
      let (u, there, _) = c.has_task j f old in
      let gone : get f.task_id s.db.tasks ≡ none =
        subst (λ n. get n s.db.tasks ≡ none) (sym same) m.fresh_task in
      cc (there, gone)

  created-HasTask : (j : ℕ) (f : Execution) → get j s'.db.executions ≡ some f → HasTask s'.db f
  created-HasTask j f found = elim (created_execution j f found) [
    | inl (p, q) ↦
        subst (HasTask s'.db) q (t, ap (λ n. get n s'.db.tasks) m.of_task ∙ new_there, m.agree)
    | inr (_, old) ↦
        let (u, there, agree) = c.has_task j f old in (u, task_stays f.task_id u there, agree)
  ]

  created_one_each :
      (i j : ℕ) (f g : Execution)
      → get i s'.db.executions ≡ some f
      → get j s'.db.executions ≡ some g
      → f.task_id ≡ g.task_id
      → i ≡ j
  created_one_each i j f g p q same = elim (created_execution i f p) [
    | inl (xi, ef) ↦ elim (created_execution j g q) [
      | inl (xj, eg) ↦ sym xi ∙ xj
      | inr (_, old) ↦
          absurd (not_new j g old (sym same ∙ (ap (λ h. h.task_id) (sym ef) ∙ m.of_task)))
    ]
    | inr (_, old) ↦ elim (created_execution j g q) [
      | inl (xj, eg) ↦ absurd (not_new i f old (same ∙ (ap (λ h. h.task_id) (sym eg) ∙ m.of_task)))
      | inr (_, old') ↦ c.one_each i j f g old old' same
    ]
  ]

  created-HasExecution : (j : ℕ) (u : Task) → get j s'.db.tasks ≡ some u → HasExecution s'.db j
  created-HasExecution j u found = elim (created_task j u found) [
    | inl (p, q) ↦ (
      x,
      e,
      write_self x e (get x s'.db.executions) (get x s.db.executions) (m.written.0 x),
      m.of_task ∙ p,
    )
    | inr (_, old) ↦
        let (y, f, there, of_task) = c.has_execution j u old in
        (y, f, execution_stays y f there, of_task)
  ]

  created_told :
      (j : ℕ) (f : Execution)
      → get j s'.db.executions ≡ some f
      → f.status ≡ queued
      → Has (j, f.task_id) s'.triggers
  created_told j f found is_queued = elim (created_execution j f found) [
    | inl (p, q) ↦
        subst (λ n. Has (n, f.task_id) s'.triggers) p
          (subst (λ n. Has (x, n) s'.triggers) (sym m.of_task ∙ ap (λ g. g.task_id) q)
            (m.told (ap (λ g. g.status) q ∙ is_queued)))
    | inr (_, old) ↦ m.kept (j, f.task_id) (c.told j f old is_queued)
  ]

  created-IsRooted : (j : ℕ) (u : Task) → get j s'.db.tasks ≡ some u → IsRooted s'.db u
  created-IsRooted j u found = elim (created_task j u found) [
    | inl (p, q) ↦ subst (IsRooted s'.db) q (of_root m.root)
    | inr (_, old) ↦
        let (r, w, has_root, there) = c.rooted j u old in (r, w, has_root, task_stays r w there)
  ]
    where
      of_root : RootIs k s.db t.root_task_id → IsRooted s'.db t
      of_root (r, has_root, inl own) = (r, t, has_root, ap (λ n. get n s'.db.tasks) own ∙ new_there)
      of_root (r, has_root, inr (w, there)) = (r, w, has_root, task_stays r w there)

  created_distinct :
      (i j : ℕ) (u v : Task)
      → get i s'.db.tasks ≡ some u
      → get j s'.db.tasks ≡ some v
      → u.root_task_id ≡ v.root_task_id
      → u.version_no ≡ v.version_no
      → i ≡ j
  created_distinct i j u v p q root version = elim (created_task i u p) [
    | inl (ki, tu) ↦ elim (created_task j v q) [
      | inl (kj, tv) ↦ sym ki ∙ kj
      | inr (_, old) ↦
          let less : v.version_no < t.version_no =
            m.newest j v old (sym root ∙ ap (λ w. w.root_task_id) (sym tu)) in
          absurd (omega (arith, ap (λ w. w.version_no) tu))
    ]
    | inr (_, old) ↦ elim (created_task j v q) [
      | inl (kj, tv) ↦
          let less : u.version_no < t.version_no =
            m.newest i u old (root ∙ ap (λ w. w.root_task_id) (sym tv)) in
          absurd (omega (arith, ap (λ w. w.version_no) tv))
      | inr (_, old') ↦ c.distinct i j u v old old' root version
    ]
  ]

  created_positive :
      (j : ℕ) (f : Execution) → get j s'.db.executions ≡ some f → (0 < j) × (0 < f.task_id)
  created_positive j f found = elim (created_execution j f found) [
    | inl (p, q) ↦ (
      subst (λ n. 0 < n) p m.positive.0,
      subst (λ n. 0 < n) (sym m.of_task ∙ ap (λ g. g.task_id) q) m.positive.1,
    )
    | inr (_, old) ↦ c.positive j f old
  ]

  pub created-IsConsistent : IsConsistent s'
  created-IsConsistent = record {
    keys = m.keys c.keys;
    positive = created_positive;
    has_task = created-HasTask;
    one_each = created_one_each;
    has_execution = created-HasExecution;
    told = created_told;
    rooted = created-IsRooted;
    distinct = created_distinct;
  }
