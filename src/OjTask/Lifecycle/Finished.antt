-- ===== src/OjTask/Lifecycle/Finished.antt =====
-- ojTaskSvc.go and ojTaskDispatcher.go: an execution that has succeeded, failed or been cancelled, and
-- its task, are history.
use personal_assistant.Base.{
  ℕ, nat_eq, nat_eq_iff, ◌≡◌, sym, ap, subst, ◌∙◌, true, some, inl, inr, nat_key, Bool-cases,
}
use personal_assistant.Base.Maps.{get}
use personal_assistant.Base.Text.{Text}
use personal_assistant.OjTask.Types.{Error, Execution, Task}
use personal_assistant.OjTask.Lifecycle.Store.{Store}
use personal_assistant.OjTask.Lifecycle.Change.{
  is_final, Change, unchanged, rows_only, moved, created, Moves, write_other,
}
use personal_assistant.OjTask.Lifecycle.Consistent.{IsConsistent}
use personal_assistant.OjTask.Lifecycle.Moved.{other_task}
use personal_assistant.OjTask.Lifecycle.Created.{task_stays, execution_stays}
use personal_assistant.OjTask.Lifecycle.Reached.{
  empty_store, Reach, here, next, Step-Change, empty-IsConsistent, Reach-IsConsistent,
}

module _ (x : ℕ) (e : Execution) (t : Task) where
  -- The execution stands there with its task, as given.
  abbrev Stands : Store → Type 0
  Stands s = (get x s.db.executions ≡ some e) × (get e.task_id s.db.tasks ≡ some t)

  module _ (final : is_final e.status ≡ true) where
    moved-Stands :
        (s s' : Store) (y : ℕ) (e0 e' : Execution) (t0 t' : Task)
        → IsConsistent s
        → Moves s s' y e0 e' t0 t'
        → Stands s
        → Stands s'
    moved-Stands s s' y e0 e' t0 t' c m (found, there) = elim (Bool-cases (nat_eq y x)) [
      | inl q ↦
          let rows : some e0 ≡ some e =
            sym m.found ∙ (ap (λ n. get n s.db.executions) ((nat_eq_iff y x).0 q) ∙ found) in
          let same : e0 ≡ e = cc rows in
          absurd (cc (sym (ap (λ (f : Execution). is_final f.status) same) ∙ m.live, final))
      | inr apart ↦ (
        write_other y x e' (get x s'.db.executions) (get x s.db.executions) apart (m.written.0 x)
            ∙ found,
        write_other e0.task_id e.task_id t' (get e.task_id s'.db.tasks) (get e.task_id s.db.tasks)
              (other_task s s' y e0 e' t0 t' c m x e apart found) (m.written.1 e.task_id)
            ∙ there,
      )
    ]

    Change-Stands : {s s' : Store} → IsConsistent s → Change s s' → Stands s → Stands s'
    Change-Stands c (unchanged same) h = subst Stands (sym same) h
    Change-Stands c (rows_only items intakes same) h = subst Stands (sym same) h
    Change-Stands {s} {s'} c (moved y e0 e' t0 t' m) h = moved-Stands s s' y e0 e' t0 t' c m h
    Change-Stands {s} {s'} c (created y k f u m) h =
        (execution_stays s s' y k f u c m x e h.0, task_stays s s' y k f u c m e.task_id t h.1)

    module _ (text_of_error : Error → Text) where
      Reach-Stands :
          {s s' : Store} → IsConsistent s → Reach text_of_error s s' → Stands s → Stands s'
      Reach-Stands c here h = h
      Reach-Stands c (next r step) h =
          let before = Reach-IsConsistent text_of_error c r in
          Change-Stands before (Step-Change text_of_error before step) (Reach-Stands c r h)

-- In tables that any sequence of operations on tasks, of new questions, and of claims and
-- attempts at executions, with whatever failures, has led to, an execution that has succeeded,
-- failed or been cancelled is there with its task: then after any further sequence both rows
-- are as they were.
pub final_frozen :
    (text_of_error : Error → Text) {s s' : Store} (x : ℕ) (e : Execution) (t : Task)
    → Reach text_of_error empty_store s
    → get x s.db.executions ≡ some e
    → is_final e.status ≡ true
    → get e.task_id s.db.tasks ≡ some t
    → Reach text_of_error s s'
    → (get x s'.db.executions ≡ some e) × (get e.task_id s'.db.tasks ≡ some t)
final_frozen text_of_error x e t past found final there future =
    Reach-Stands x e t final text_of_error
      (Reach-IsConsistent text_of_error empty-IsConsistent past) future (found, there)
