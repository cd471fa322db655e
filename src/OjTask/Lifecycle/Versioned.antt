-- ===== src/OjTask/Lifecycle/Versioned.antt =====
-- ojTaskSvc.go: what CreateTask, ReviseTask and RetryTask do to the tables.
use personal_assistant.Base.{
  ℕ, ltb, ◌≡◌, inl, inr, refl, sym, subst, ◌∙◌, Option, none, some, nat_key, Bool-cases,
}
use personal_assistant.Base.Buckets.{or_empty}
use personal_assistant.Base.Maps.{get}
use personal_assistant.Base.Result.{Yields, yields_then, yields_skip}
use personal_assistant.OjTask.Snapshot.{sort_by}
use personal_assistant.OjTask.Types.{TriggerType, by_retry, Task}
use personal_assistant.OjTask.Lifecycle.Draft.{TaskReq, DraftItem, DraftOf, validate_draft}
use personal_assistant.OjTask.Lifecycle.Materialize.{materialize_draft}
use personal_assistant.OjTask.Lifecycle.Store.{
  Store, Outside, read_task, read_execution, read_orgs, read_items, read_latest, call,
  latest_version, after_version, positive_root, effective_root_task_id, next_version_no,
  authorize_manage_org_ids,
}
use personal_assistant.OjTask.Lifecycle.Create.{
  resolve_execution_trigger, create_task_version, create_task,
}
use personal_assistant.OjTask.Lifecycle.Edit.{merge_uint_slices}
use personal_assistant.OjTask.Lifecycle.Versions.{
  Source, row_before, source_of, load_task_with_execution, not_deleted, the_execution, has_ended,
  retry_draft, revise_task, retry_task,
}
use personal_assistant.OjTask.Lifecycle.Change.{RootIs, Change}
use personal_assistant.OjTask.Lifecycle.Consistent.{IsConsistent}
use personal_assistant.OjTask.Lifecycle.Edited.{Changes, settled-Change}
use personal_assistant.OjTask.Lifecycle.Chains.{IsFresh, IsNewest, latest_version_bounds}
use personal_assistant.OjTask.Lifecycle.Stored.{create_task_version-Changes}

module _ (outside : Outside) (operator : ℕ) (s : Store) (c : IsConsistent s)
    (fresh : IsFresh outside s) where
  -- No task belongs to the chain of a task that is not there yet.
  no_chain :
      (j : ℕ) (u : Task) → get j s.db.tasks ≡ some u → u.root_task_id ≡ some outside.new_task_id → ⊥
  no_chain j u there root =
      let (r, w, has_root, found) = c.rooted j u there in
      let same : some r ≡ some outside.new_task_id = sym has_root ∙ root in
      let key : r ≡ outside.new_task_id = cc same in
      cc (sym (subst (λ n. get n s.db.tasks ≡ some w) key found) ∙ fresh.fresh_task)

  pub create_task-Change : (req : TaskReq) → Change s (create_task outside operator req s).1
  unfolding create_task
  create_task-Change req = settled-Change outside s _ (
      yields_skip (validate_draft outside.org outside.now req) _ (Changes s) λ draft.
        yields_skip (authorize_manage_org_ids outside operator draft.org_ids) _ (Changes s) λ _.
          yields_skip (materialize_draft outside.questions draft) _ (Changes s) λ materialized.
            create_task_version-Changes outside s fresh none none 1 operator
              (outside.new_task_id, refl, inl refl)
              (λ j u there root. absurd (no_chain j u there root)) materialized
              (resolve_execution_trigger draft.mode))

  -- The root of a task that is there is there itself.
  root_there :
      (k : ℕ) (task : Task)
      → get k s.db.tasks ≡ some task
      → (u : Task) × (get (effective_root_task_id k task) s.db.tasks ≡ some u)
  root_there k task there =
      let (r, w, has_root, found) = c.rooted k task there in
      subst (λ (o : Option ℕ). (u : Task) × (get (positive_root k o) s.db.tasks ≡ some u))
        (sym has_root)
        (elim (Bool-cases (ltb 0 r)) [ inl q ↦ (w, rw q found) | inr q ↦ (task, rw q there) ])

  module _ (k : ℕ) (task : Task) (there : get k s.db.tasks ≡ some task) where
    next_root :
        RootIs outside.new_task_id s.db
          (some (positive_root outside.new_task_id (some (effective_root_task_id k task))))
    next_root = elim (Bool-cases (ltb 0 (effective_root_task_id k task))) [
      | inl q ↦ rw q (effective_root_task_id k task, refl, inr (root_there k task there))
      | inr q ↦ rw q (outside.new_task_id, refl, inl refl)
    ]

    next-IsNewest :
        IsNewest s
          (some (positive_root outside.new_task_id (some (effective_root_task_id k task))))
          (after_version (latest_version (effective_root_task_id k task) s.db.tasks))
    next-IsNewest j u found root = elim (Bool-cases (ltb 0 (effective_root_task_id k task))) [
      | inl q ↦
          latest_version_bounds (effective_root_task_id k task) j u s.db.tasks found (rw q at root)
      | inr q ↦ absurd (no_chain j u found (rw q at root))
    ]

  -- The source of a new version is a task that is there.
  abbrev IsSource : ℕ → Source → Type 0
  IsSource k source = get k s.db.tasks ≡ some source.task

  load-IsSource : (k : ℕ) → Yields (load_task_with_execution outside k s) (IsSource k)
  unfolding load_task_with_execution
  load-IsSource k =
      yields_skip (call outside read_task) _ (IsSource k) λ _. found (get k s.db.tasks) refl
    where
      found :
          (o : Option Task) → get k s.db.tasks ≡ o → Yields (source_of outside k s o) (IsSource k)
      found none q = tt
      found (some task) q =
          yields_skip (call outside read_execution) _ (IsSource k)
            λ _. yields_skip (call outside read_orgs) _ (IsSource k) λ _. q

  abbrev FollowsLatest : ℕ → Source → ℕ → Type 0
  FollowsLatest k source version =
      version ≡ after_version (latest_version (effective_root_task_id k source.task) s.db.tasks)

  next_version_no-FollowsLatest :
      (k : ℕ) (source : Source)
      → Yields
          (next_version_no outside (effective_root_task_id k source.task) s)
          (FollowsLatest k source)
  next_version_no-FollowsLatest k source =
      yields_skip (call outside read_latest) _ (FollowsLatest k source) λ _. refl

  next-Changes :
      (k : ℕ) (source : Source) (version : ℕ) (draft : DraftOf DraftItem) (trigger : TriggerType)
      → IsSource k source
      → FollowsLatest k source version
      → Yields
          (create_task_version outside
            (some (effective_root_task_id k source.task))
            (some k)
            version
            operator
            draft
            trigger
            s)
          (Changes s)
  next-Changes k source version draft trigger there next =
      create_task_version-Changes outside s fresh (some (effective_root_task_id k source.task))
        (some k) version operator (next_root k source.task there)
        (subst
          (IsNewest s (
            some (positive_root outside.new_task_id (some (effective_root_task_id k source.task)))))
          (sym next) (next-IsNewest k source.task there))
        draft trigger

  pub revise_task-Change :
      (k : ℕ) (req : TaskReq) → Change s (revise_task outside operator k req s).1
  unfolding revise_task
  revise_task-Change k req = settled-Change outside s _ (
      yields_skip (validate_draft outside.org outside.now req) _ (Changes s) λ draft.
        yields_then (load_task_with_execution outside k s) _ (IsSource k) (Changes s)
          (load-IsSource k)
          λ source there. yields_skip (not_deleted source.task) _ (Changes s) λ _.
            yields_skip (the_execution source.execution) _ (Changes s) λ execution.
              yields_skip
                (authorize_manage_org_ids outside operator
                  (merge_uint_slices source.org_ids draft.org_ids))
                _ (Changes s)
                λ _.
                  yields_skip (materialize_draft outside.questions draft) _ (Changes s)
                    λ materialized.
                      yields_then (next_version_no outside (effective_root_task_id k source.task) s)
                        _ (FollowsLatest k source) (Changes s)
                        (next_version_no-FollowsLatest k source)
                        λ version next.
                          next-Changes k source version materialized
                            (resolve_execution_trigger materialized.mode) there next)

  pub retry_task-Change : (k : ℕ) → Change s (retry_task outside operator k s).1
  unfolding retry_task
  retry_task-Change k = settled-Change outside s _ (
      yields_then (load_task_with_execution outside k s) _ (IsSource k) (Changes s)
        (load-IsSource k)
        λ source there. yields_skip (not_deleted source.task) _ (Changes s) λ _.
          yields_skip (the_execution source.execution) _ (Changes s) λ execution.
            yields_skip (has_ended execution) _ (Changes s) λ _.
              yields_skip (authorize_manage_org_ids outside operator source.org_ids) _ (Changes s)
                λ _. yields_skip (call outside read_items) _ (Changes s) λ _.
                  yields_then (next_version_no outside (effective_root_task_id k source.task) s) _
                    (FollowsLatest k source) (Changes s) (next_version_no-FollowsLatest k source)
                    λ version next.
                      next-Changes k source version
                        (retry_draft source.task source.org_ids
                          (sort_by row_before (or_empty (get k s.items))))
                        by_retry there next)
