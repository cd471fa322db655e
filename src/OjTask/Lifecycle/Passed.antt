-- ===== src/OjTask/Lifecycle/Passed.antt =====
-- ojTaskDispatcher.go: a pass over the due executions consists of the steps of Reached. Several workers make
-- the same attempts in another order.
use personal_assistant.Base.{
  ℕ, suc, zero, ltb, nat_eq, nat_eq_iff, ◌≡◌, refl, sym, ap, subst, ◌∙◌, Bool, not, ◌||◌, Option,
  none, some, nat_key, by_test, List, [], ◌∷◌, inl, inr, Bool-cases, All,
}
use personal_assistant.Base.Maps.{Map, get, Unique, get-head, get-tail, get-put_self}
use personal_assistant.Base.Text.{Text}
use personal_assistant.OjTask.Snapshot.{insert_by, sort_by}
use personal_assistant.OjTask.Types.{Error, is_dispatchable, executing, Execution, Db}
use personal_assistant.OjTask.Dispatch.{
  Calls, LockAnswer, acquired, contended, broken, claimable, claim_found, claim_execution,
  after_claim, locked_attempt, dispatch_single_execution, dispatch_attempt_result_error,
}
use personal_assistant.OjTask.Lifecycle.Store.{Store}
use personal_assistant.OjTask.Lifecycle.Change.{
  Change, unchanged, rows_only, moved, created, write_other,
}
use personal_assistant.OjTask.Lifecycle.Consistent.{IsConsistent}
use personal_assistant.OjTask.Lifecycle.Moved.{execution_after}
use personal_assistant.OjTask.Lifecycle.Created.{execution_stays}
use personal_assistant.OjTask.Lifecycle.Reached.{
  with_db, Step, claim, attempt, Reach, here, next, Step-Change, Reach-IsConsistent,
}
use personal_assistant.OjTask.Lifecycle.Passes.{
  is_due, DueRow, due_before, due_of, first_rows, dispatch_row, list_due_executions, join_errors,
  dispatch_rows, dispatch_pending_executions,
}

-- The execution is there, and its task is this one.
abbrev pub HasRow : Store → DueRow → Type 0
HasRow s (x, e) = (f : Execution) × (get x s.db.executions ≡ some f) × (f.task_id ≡ e.task_id)

Change-HasRow :
    {s s' : Store} (row : DueRow) → IsConsistent s → Change s s' → HasRow s row → HasRow s' row
Change-HasRow row c (unchanged same) h = subst (λ r. HasRow r row) (sym same) h
Change-HasRow row c (rows_only items intakes same) h = subst (λ r. HasRow r row) (sym same) h
Change-HasRow {s} {s'} (x, e) c (moved y e0 e' t0 t' m) (f, found, same) =
    elim (Bool-cases (nat_eq y x)) [
      | inl q ↦
          let key : y ≡ x = (nat_eq_iff y x).0 q in
          let rows : some e0 ≡ some f =
            sym m.found ∙ (ap (λ n. get n s.db.executions) key ∙ found) in
          let row : e0 ≡ f = cc rows in
          (
            e',
            subst (λ n. get n s'.db.executions ≡ some e') key
                (execution_after s s' y e0 e' t0 t' c m),
            m.same_task ∙ (ap (λ (g : Execution). g.task_id) row ∙ same),
          )
      | inr q ↦ (
        f,
        write_other y x e' (get x s'.db.executions) (get x s.db.executions) q (m.written.0 x)
            ∙ found,
        same,
      )
    ]
Change-HasRow {s} {s'} (x, e) c (created y k g t m) (f, found, same) =
    (f, execution_stays s s' y k g t c m x f found, same)

claimable_same : (o : Option Execution) (e : Execution) → claimable o ≡ some e → o ≡ some e
claimable_same none e q = absurd (cc)
claimable_same (some f) e q =
    by_test (λ r. r ≡ some e → some f ≡ some e) (is_dispatchable f.status) (some f) none (λ _ p. p)
      (λ _ p. absurd (cc (p))) q

module _ (text_of_error : Error → Text) (calls : Calls) (s : Store) (x : ℕ) (e : Execution) where
  abbrev ReachedBy {ℓ} : {A : Type ℓ} → A × Db → Type 0
  ReachedBy step = Reach text_of_error s (with_db step.1 s)

  claimed-Reach :
      HasRow s (x, e)
      → ReachedBy (
          after_claim text_of_error calls
            (dispatch_row (x, e))
            (claim_execution x calls.claimed_at s.db))
  unfolding claim_execution
  claimed-Reach (f, found, same) = claimed (claimable (get x s.db.executions)) refl
    where
      after : Execution → Store
      after g = with_db (claim_found x calls.claimed_at s.db (some g)).1 s

      claimed :
          (o : Option Execution)
          → claimable (get x s.db.executions) ≡ o
          → ReachedBy (
              after_claim text_of_error calls
                (dispatch_row (x, e))
                (claim_found x calls.claimed_at s.db o))
      claimed none q = here
      claimed (some g) q =
          let rows : some g ≡ some f = sym (claimable_same (get x s.db.executions) g q) ∙ found in
          let row : g ≡ f = cc rows in
          let claims : Step text_of_error s (after g) =
            subst (λ o. Step text_of_error s (with_db (claim_found x calls.claimed_at s.db o).1 s))
              q (claim x calls.claimed_at) in
          next (next here claims) (
            attempt calls (dispatch_row (x, e))
              (record g { started_at = some calls.claimed_at; status = executing }) s.items
              s.intakes
              (get-put_self x (record g { started_at = some calls.claimed_at; status = executing })
                s.db.executions)
              (sym same ∙ ap (λ (h : Execution). h.task_id) (sym row)) refl)

  locked-Reach :
      HasRow s (x, e)
      → (answer : LockAnswer)
      → ReachedBy (locked_attempt text_of_error calls (dispatch_row (x, e)) s.db answer)
  locked-Reach h broken = here
  locked-Reach h contended = here
  locked-Reach h acquired =
      by_test ReachedBy calls.claim_fails _ _ (λ _. here) (λ _. claimed-Reach h)

  -- An attempt is a claim and what follows, or nothing.
  dispatch_single_execution-Reach :
      HasRow s (x, e)
      → ReachedBy (dispatch_single_execution text_of_error calls (dispatch_row (x, e)) s.db)
  unfolding dispatch_single_execution
  dispatch_single_execution-Reach h =
      by_test ReachedBy (nat_eq x 0 || nat_eq e.task_id 0 || not (is_dispatchable e.status)) _ _
        (λ _. here) (λ _. locked-Reach h calls.lock)

module _ (text_of_error : Error → Text) where
  Reach_trans :
      {s u v : Store} → Reach text_of_error s u → Reach text_of_error u v → Reach text_of_error s v
  Reach_trans r here = r
  Reach_trans r (next q step) = next (Reach_trans r q) step

  Reach-HasRow :
      {s s' : Store} (row : DueRow)
      → IsConsistent s
      → Reach text_of_error s s'
      → HasRow s row
      → HasRow s' row
  Reach-HasRow row c here h = h
  Reach-HasRow row c (next r step) h =
      let before = Reach-IsConsistent text_of_error c r in
      Change-HasRow row before (Step-Change text_of_error before step) (Reach-HasRow row c r h)

  All-HasRow :
      {s s' : Store} (rows : List DueRow)
      → IsConsistent s
      → Reach text_of_error s s'
      → All (HasRow s) rows
      → All (HasRow s') rows
  All-HasRow [] c r h = tt
  All-HasRow (row ∷ rows) c r h = (Reach-HasRow row c r h.0, All-HasRow rows c r h.1)

  dispatch_rows-Reach :
      (calls : ℕ → Calls) (at : ℕ) (before : Option Error) (rows : List DueRow) (s : Store)
      → IsConsistent s
      → All (HasRow s) rows
      → Reach text_of_error s (with_db (dispatch_rows text_of_error calls at before rows s.db).1 s)
  unfolding dispatch_rows
  dispatch_rows-Reach calls at before [] s c h = here
  dispatch_rows-Reach calls at before ((x, e) ∷ rows) s c h =
      let step = dispatch_single_execution text_of_error (calls at) (dispatch_row (x, e)) s.db in
      let first : Reach text_of_error s (with_db step.1 s) =
        dispatch_single_execution-Reach text_of_error (calls at) s x e h.0 in
      Reach_trans first (
        dispatch_rows-Reach calls (suc at)
          (join_errors before (dispatch_attempt_result_error step.0)) rows (with_db step.1 s)
          (Reach-IsConsistent text_of_error c first) (All-HasRow rows c first h.1))

first_rows-All {ℓ} :
    {A : Type ℓ} (P : A → Type 0) (limit : ℕ) (rows : List A)
    → All P rows
    → All P (first_rows limit rows)
unfolding first_rows
first_rows-All P zero rows h = tt
first_rows-All P (suc limit) [] h = tt
first_rows-All P (suc limit) (row ∷ rows) h = (h.0, first_rows-All P limit rows h.1)

insert_by-All {ℓ} :
    {A : Type ℓ} (P : A → Type 0) (before : A → A → Bool) (row : A) (rows : List A)
    → P row
    → All P rows
    → All P (insert_by before row rows)
unfolding insert_by
insert_by-All P before row [] p h = (p, tt)
insert_by-All P before row (other ∷ rows) p h =
    by_test (λ out. All P out) (before other row) _ _
      (λ _. (h.0, insert_by-All P before row rows p h.1)) (λ _. (p, h))

sort_by-All {ℓ} :
    {A : Type ℓ} (P : A → Type 0) (before : A → A → Bool) (rows : List A)
    → All P rows
    → All P (sort_by before rows)
unfolding sort_by
sort_by-All P before [] h = tt
sort_by-All P before (row ∷ rows) h =
    insert_by-All P before row (sort_by before rows) h.0 (sort_by-All P before rows h.1)

due_of-All :
    (P : DueRow → Type 0) (now : ℕ) (m : Map ℕ Execution)
    → Unique m
    → ((x : ℕ) (e : Execution) → get x m ≡ some e → P (x, e))
    → All P (due_of now m)
unfolding due_of
due_of-All P now [] u h = tt
due_of-All P now ((x, e) ∷ rows) u h =
    let rest = due_of-All P now rows u.1 (λ y f q. h y f (get-tail x y e f rows u.0 q)) in
    by_test (λ out. All P out) (is_due now e) _ _ (λ _. (h x e (get-head x e rows), rest))
      (λ _. rest)

-- A pass over the due executions consists of claims and attempts.
pub dispatch_pending_executions-Reach :
    (text_of_error : Error → Text) (list_fails : Bool) (now limit : ℕ) (calls : ℕ → Calls)
    (s : Store)
    → IsConsistent s
    → Reach text_of_error s
        (with_db (dispatch_pending_executions text_of_error list_fails now limit calls s.db).1 s)
unfolding dispatch_pending_executions list_due_executions
dispatch_pending_executions-Reach text_of_error list_fails now limit calls s c =
    by_test (λ (step : Option Error × Db). Reach text_of_error s (with_db step.1 s)) list_fails _ _
      (λ _. here)
      (λ _. dispatch_rows-Reach text_of_error calls 0 none _ s c (
        by_test (λ out. All (HasRow s) out) (ltb 0 limit) _ _
          (λ _. first_rows-All (HasRow s) limit _ sorted) (λ _. sorted)))
  where
    due : List DueRow
    due = due_of now s.db.executions

    sorted : All (HasRow s) (sort_by due_before due)
    sorted =
        sort_by-All (HasRow s) due_before due
          (due_of-All (HasRow s) now s.db.executions c.keys (λ x e found. (e, found, refl)))
