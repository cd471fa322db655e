-- ===== src/OjTask/Lifecycle/Moved.antt =====
-- ojTaskSvc.go and ojTaskDispatcher.go: a step of an execution and its task keeps the invariant.
use personal_assistant.Base.{
  ℕ, nat_eq, nat_eq_iff, ◌≡◌, ◌<◌, ◌⊎◌, inl, inr, refl, sym, ap, subst, ◌∙◌, false, some, nat_key,
  Bool-cases, arith,
}
use personal_assistant.Base.Maps.{get}
use personal_assistant.OjTask.Types.{queued, Execution, Task}
use personal_assistant.OjTask.Lifecycle.Store.{Store}
use personal_assistant.OjTask.Lifecycle.Change.{Has, Moves, read_back, write_self, write_other}
use personal_assistant.OjTask.Lifecycle.Consistent.{HasTask, HasExecution, IsConsistent}

module _ (s s' : Store) (x : ℕ) (e e' : Execution) (t t' : Task) (c : IsConsistent s)
    (m : Moves s s' x e e' t t') where
  -- An execution after the step is the one that moved, or stood there before.
  moved_execution :
      (j : ℕ) (f : Execution)
      → get j s'.db.executions ≡ some f
      → ((x ≡ j) × (e' ≡ f)) ⊎ ((nat_eq x j ≡ false) × (get j s.db.executions ≡ some f))
  moved_execution j f found =
      read_back x j e' f (get j s'.db.executions) (get j s.db.executions) (m.written.0 j) found

  moved_task :
      (j : ℕ) (u : Task)
      → get j s'.db.tasks ≡ some u
      → ((e.task_id ≡ j) × (t' ≡ u)) ⊎ ((nat_eq e.task_id j ≡ false) × (get j s.db.tasks ≡ some u))
  moved_task j u found =
      read_back e.task_id j t' u (get j s'.db.tasks) (get j s.db.tasks) (m.written.1 j) found

  pub task_after : get e.task_id s'.db.tasks ≡ some t'
  task_after =
      write_self e.task_id t' (get e.task_id s'.db.tasks) (get e.task_id s.db.tasks)
        (m.written.1 e.task_id)

  pub execution_after : get x s'.db.executions ≡ some e'
  execution_after = write_self x e' (get x s'.db.executions) (get x s.db.executions) (m.written.0 x)

  -- An execution that did not move is the execution of another task.
  pub other_task :
      (j : ℕ) (f : Execution)
      → nat_eq x j ≡ false
      → get j s.db.executions ≡ some f
      → nat_eq e.task_id f.task_id ≡ false
  other_task j f apart old = elim (Bool-cases (nat_eq e.task_id f.task_id)) [
    | inl q ↦
        let same : x ≡ j = c.one_each x j e f m.found old ((nat_eq_iff e.task_id f.task_id).0 q) in
        absurd (ground (arith, same, apart, nat_eq_iff x j))
    | inr q ↦ q
  ]

  -- Each task after the step has the chain and the version of a task before.
  same_chain :
      (j : ℕ) (u : Task)
      → get j s'.db.tasks ≡ some u
      → (v : Task) × (get j s.db.tasks ≡ some v)
        × (u.root_task_id ≡ v.root_task_id)
        × (u.version_no ≡ v.version_no)
  same_chain j u found = elim (moved_task j u found) [
    | inl (k, q) ↦ (
      t,
      subst (λ n. get n s.db.tasks ≡ some t) k m.found_task,
      ap (λ w. w.root_task_id) (sym q) ∙ m.same_root,
      ap (λ w. w.version_no) (sym q) ∙ m.same_version,
    )
    | inr (_, old) ↦ (u, old, refl, refl)
  ]

  still_task :
      (j : ℕ) (u : Task) → get j s.db.tasks ≡ some u → (v : Task) × (get j s'.db.tasks ≡ some v)
  still_task j u old = elim (Bool-cases (nat_eq e.task_id j)) [
    | inl q ↦
        (t', subst (λ n. get n s'.db.tasks ≡ some t') ((nat_eq_iff e.task_id j).0 q) task_after)
    | inr q ↦ (
      u,
      write_other e.task_id j t' (get j s'.db.tasks) (get j s.db.tasks) q (m.written.1 j) ∙ old,
    )
  ]

  moved-HasTask : (j : ℕ) (f : Execution) → get j s'.db.executions ≡ some f → HasTask s'.db f
  moved-HasTask j f found = elim (moved_execution j f found) [
    | inl (p, q) ↦
        subst (HasTask s'.db) q (t', ap (λ n. get n s'.db.tasks) m.same_task ∙ task_after, m.agree)
    | inr (apart, old) ↦
        let (u, there, agree) = c.has_task j f old in
        (
          u,
          write_other e.task_id f.task_id t' (get f.task_id s'.db.tasks) (get f.task_id s.db.tasks)
                (other_task j f apart old) (m.written.1 f.task_id)
              ∙ there,
          agree,
        )
  ]

  -- Which execution a task has does not change.
  before :
      (j : ℕ) (f : Execution)
      → get j s'.db.executions ≡ some f
      → (g : Execution) × (get j s.db.executions ≡ some g) × (f.task_id ≡ g.task_id)
  before j f found = elim (moved_execution j f found) [
    | inl (p, q) ↦ (
      e,
      subst (λ n. get n s.db.executions ≡ some e) p m.found,
      ap (λ g. g.task_id) (sym q) ∙ m.same_task,
    )
    | inr (_, old) ↦ (f, old, refl)
  ]

  moved_told :
      (j : ℕ) (f : Execution)
      → get j s'.db.executions ≡ some f
      → f.status ≡ queued
      → Has (j, f.task_id) s'.triggers
  moved_told j f found is_queued = elim (moved_execution j f found) [
    | inl (p, q) ↦
        subst (λ n. Has (n, f.task_id) s'.triggers) p
          (subst (λ n. Has (x, n) s'.triggers) (sym m.same_task ∙ ap (λ g. g.task_id) q)
            (told_here (m.told (ap (λ g. g.status) q ∙ is_queued))))
    | inr (_, old) ↦ m.kept (j, f.task_id) (c.told j f old is_queued)
  ]
    where
      told_here :
          (e.status ≡ queued) ⊎ Has (x, e.task_id) s'.triggers → Has (x, e.task_id) s'.triggers
      told_here (inl q) = m.kept (x, e.task_id) (c.told x e m.found q)
      told_here (inr h) = h

  moved-HasExecution : (k : ℕ) (u : Task) → get k s'.db.tasks ≡ some u → HasExecution s'.db k
  moved-HasExecution k u found =
      let (v, old, _, _) = same_chain k u found in
      let (y, f, there, of_task) = c.has_execution k v old in
      elim (Bool-cases (nat_eq x y)) [
        | inl q ↦
            let same : e.task_id ≡ f.task_id =
              ground (arith, (nat_eq_iff x y).0 q, m.found, there) in
            (x, e', execution_after, m.same_task ∙ (same ∙ of_task))
        | inr q ↦ (
          y,
          f,
          write_other x y e' (get y s'.db.executions) (get y s.db.executions) q (m.written.0 y)
              ∙ there,
          of_task,
        )
      ]

  pub moved-IsConsistent : IsConsistent s'
  moved-IsConsistent = record {
    keys = m.keys c.keys;
    positive = λ j f found.
        let (g, old, same) = before j f found in
        let p = c.positive j g old in (p.0, subst (λ n. 0 < n) (sym same) p.1);
    has_task = moved-HasTask;
    one_each = λ j k f g p q same.
        let (f0, old, f_task) = before j f p in
        let (g0, old', g_task) = before k g q in
        c.one_each j k f0 g0 old old' (sym f_task ∙ (same ∙ g_task));
    has_execution = moved-HasExecution;
    told = moved_told;
    rooted = λ j u found.
        let (v, old, root, _) = same_chain j u found in
        let (r, w, has_root, there) = c.rooted j v old in
        let (w', there') = still_task r w there in (r, w', root ∙ has_root, there');
    distinct = λ j k u v p q root version.
        let (u0, old, u_root, u_version) = same_chain j u p in
        let (v0, old', v_root, v_version) = same_chain k v q in
        c.distinct j k u0 v0 old old' (sym u_root ∙ (root ∙ v_root))
          (sym u_version ∙ (version ∙ v_version));
  }
