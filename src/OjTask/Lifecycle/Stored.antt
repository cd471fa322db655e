-- ===== src/OjTask/Lifecycle/Stored.antt =====
-- ojTaskSvc.go: what createTaskVersionTx does to the tables.
use personal_assistant.Base.{
  ℕ, ◌≡◌, refl, sym, ap, subst, true, Option, some, if◌then◌else◌, nat_key,
}
use personal_assistant.Base.Maps.{Unique, put-Unique}
use personal_assistant.Base.Result.{Result, ok, err, Yields, yields_then, yields_skip}
use personal_assistant.OjTask.Types.{Error, Mode, immediate, deferred, TriggerType, queued, Db}
use personal_assistant.OjTask.Lifecycle.Draft.{DraftItem, DraftOf}
use personal_assistant.OjTask.Lifecycle.Store.{
  Store, Outside, write_task, write_root, write_orgs, write_items, write_intakes, write_execution,
  call, positive_root,
}
use personal_assistant.OjTask.Lifecycle.Create.{
  first_task_status, first_execution_status, needs_root, new_task, new_execution, stored,
  publish_if_queued, create_task_version,
}
use personal_assistant.OjTask.Lifecycle.Change.{
  agrees, Has, Kept, RootIs, Change, created, put-Written, Written,
}
use personal_assistant.OjTask.Lifecycle.Edited.{Changes, Published, publish-Published}
use personal_assistant.OjTask.Lifecycle.Chains.{IsFresh, IsNewest}

first_statuses_agree :
    (mode : Mode) → agrees (first_execution_status mode) (first_task_status mode) ≡ true
first_statuses_agree immediate = refl
first_statuses_agree deferred = refl

module _ (outside : Outside) (s : Store) (fresh : IsFresh outside s) (root parent : Option ℕ)
    (version operator : ℕ)
    (rooted : RootIs outside.new_task_id s.db (some (positive_root outside.new_task_id root)))
    (newest : IsNewest s (some (positive_root outside.new_task_id root)) version) where
  module _ (draft : DraftOf DraftItem) (trigger : TriggerType) where
    -- What the publishing leaves: the new rows, and a trigger if the execution is queued.
    abbrev IsStored : Store → Type 0
    IsStored after =
        (after.db ≡ (stored outside root parent version operator draft trigger s).db)
        × Kept s after
        × (first_execution_status draft.mode ≡ queued
            → Has (outside.new_execution_id, outside.new_task_id) after.triggers)

    publish_if_queued-IsStored :
        (mode : Mode)
        → draft.mode ≡ mode
        → Yields
            (publish_if_queued outside root parent version operator mode
              (stored outside root parent version operator draft trigger s))
            IsStored
    publish_if_queued-IsStored deferred q =
        (refl, (λ p h. h), λ is_queued. absurd (cc (ap first_execution_status q, is_queued)))
    publish_if_queued-IsStored immediate q = weaken _ (
        publish-Published outside outside.new_execution_id outside.new_task_id
          (stored outside root parent version operator draft trigger s))
      where
        weaken :
            (r : Result Error Store)
            → Yields r (
                Published outside.new_execution_id outside.new_task_id
                  (stored outside root parent version operator draft trigger s))
            → Yields r IsStored
        weaken (err cause) h = tt
        weaken (ok after) h = (h.0, h.1, λ _. h.2 fresh.positive.0 fresh.positive.1)

    stored-Change : (after : Store) → IsStored after → Change s after
    stored-Change after done =
        created outside.new_execution_id outside.new_task_id
          (new_execution outside root parent version operator draft trigger)
          (new_task outside root parent version operator draft)
          (record {
            fresh = fresh.fresh;
            fresh_task = fresh.fresh_task;
            positive = fresh.positive;
            written =
                subst
                  (λ (d : Db).
                    Written outside.new_execution_id outside.new_task_id
                      (new_execution outside root parent version operator draft trigger)
                      (new_task outside root parent version operator draft) s.db d)
                  (sym done.0)
                  (put-Written outside.new_execution_id outside.new_task_id
                    (new_execution outside root parent version operator draft trigger)
                    (new_task outside root parent version operator draft) s.db);
            keys = λ u.
                subst (λ (d : Db). Unique d.executions) (sym done.0)
                  (put-Unique outside.new_execution_id
                    (new_execution outside root parent version operator draft trigger)
                    s.db.executions u);
            of_task = refl;
            agree = first_statuses_agree draft.mode;
            told = done.2;
            kept = done.1;
            root = rooted;
            newest = newest;
          })

    pub create_task_version-Changes :
        Yields
          (create_task_version outside root parent version operator draft trigger s)
          (Changes s)
    unfolding create_task_version
    create_task_version-Changes = yields_skip (call outside write_task) _ (Changes s) λ _.
        yields_skip (if needs_root root then call outside write_root else ok tt) _ (Changes s) λ _.
          yields_skip (call outside write_orgs) _ (Changes s) λ _.
            yields_skip (call outside write_items) _ (Changes s) λ _.
              yields_skip (call outside write_intakes) _ (Changes s) λ _.
                yields_skip (call outside write_execution) _ (Changes s) λ _.
                  yields_then _ _ IsStored (Changes s) (publish_if_queued-IsStored draft.mode refl)
                    stored-Change
