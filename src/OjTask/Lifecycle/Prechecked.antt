-- ===== src/OjTask/Lifecycle/Prechecked.antt =====
-- ojTask_preflight.go: what the check before an attempt leaves of the items.
use personal_assistant.Base.{
  ℕ, nat_eq, ◌≡◌, inl, inr, refl, subst, true, false, not, ◌||◌, List, [], ◌∷◌, Option, nat_key,
  by_test, of_not, Bool-cases, All, arith,
}
use personal_assistant.Base.Maps.{Map, get}
use personal_assistant.Base.Text.{is_nil, text_key}
use personal_assistant.Base.Result.{Result, ok, err, Yields, yields_then, yields_skip, yields_found}
use personal_assistant.OjTask.Types.{Error}
use personal_assistant.OjTask.Lifecycle.Store.{ItemRow, IntakeRow}
use personal_assistant.OjTask.Lifecycle.Preflight.{
  Checks, Checked, is_resolved, waits_for_question, stored_row, pre_flight_task_item, write_item,
  write_intake, pre_flight_items, committed, pre_flight_check,
}
use personal_assistant.OjTask.Lifecycle.Decided.{
  IsSettled, AreDecided, IsFinal, is_passed, passed-IsFinal, missing-IsFinal, passed_waits_not,
  Leaves, by_found-Leaves, right_false,
}

module _ (checks : Checks) where
  pre_flight_task_item-Leaves :
      (row : ItemRow) (intake : Option IntakeRow)
      → Leaves checks.by_title row (pre_flight_task_item checks row intake)
  unfolding pre_flight_task_item
  pre_flight_task_item-Leaves row intake =
      by_test (Leaves checks.by_title row) (is_passed row) _ _
        (λ passed.
          (passed-IsFinal row passed, refl, inr refl, inl (passed_waits_not row passed, refl)))
        (λ open_row.
          by_test (Leaves checks.by_title row) (is_nil row.item.input_title) _ _
            (λ untitled. (
              missing-IsFinal row,
              refl,
              inl (right_false (nat_eq row.id 0) (is_resolved row.item) open_row),
              inr (inl (untitled, refl)),
            ))
            (λ titled.
              by_test (Leaves checks.by_title row) (not (waits_for_question row.item)) _ _
                (λ decided. (
                  record {
                    titled = λ q n. absurd (cc (titled, n));
                    decided = λ q. ground (arith, decided);
                  },
                  refl,
                  inr refl,
                  inl (inr (ground (arith, decided)), refl),
                ))
                (λ waits.
                  yields_found (checks.by_title row.item.platform row.item.input_title) _ _
                    (λ found answered.
                      by_found-Leaves checks.by_title row intake found
                        (right_false (nat_eq row.id 0) (is_resolved row.item) open_row) titled
                        (of_not (waits_for_question row.item) waits) answered))))

  -- A final row stays what it is.
  final_stays :
      (row : ItemRow) (intake : Option IntakeRow)
      → IsFinal row
      → Yields (pre_flight_task_item checks row intake) (λ checked. stored_row row checked ≡ row)
  unfolding pre_flight_task_item
  final_stays row intake f =
      by_test Stays (is_passed row) _ _ (λ _. refl)
        (λ open_row.
          by_test Stays (is_nil row.item.input_title) _ _ (λ n. f.titled open_row n)
            (λ titled.
              by_test Stays (not (waits_for_question row.item)) _ _ (λ _. refl)
                (λ waits.
                  absurd (cc (of_not (waits_for_question row.item) waits, f.decided open_row)))))
    where
      Stays : Result Error Checked → Type 0
      Stays result = Yields result (λ checked. stored_row row checked ≡ row)

  abbrev After : Type 0
  After = List ItemRow × Map ℕ IntakeRow

  abbrev LeavesAll : List ItemRow → After → Type 0
  LeavesAll rows after = All IsFinal after.0 × AreDecided checks.by_title rows after.0

  pre_flight_items-LeavesAll :
      (rows : List ItemRow) (intakes : Map ℕ IntakeRow)
      → Yields (pre_flight_items checks intakes rows) (LeavesAll rows)
  unfolding pre_flight_items
  pre_flight_items-LeavesAll [] intakes = (tt, tt)
  pre_flight_items-LeavesAll (row ∷ rows) intakes =
      yields_then (pre_flight_task_item checks row (get row.id intakes)) _ _ _
        (pre_flight_task_item-Leaves row (get row.id intakes))
        λ checked leaves. yields_skip (write_item checks checked) _ _ λ _.
          yields_skip (write_intake checks row.id checked.intake intakes) _ _ λ after.
            yields_then (pre_flight_items checks after rows) _ _ _
              (pre_flight_items-LeavesAll rows after)
              λ rest all. ((leaves.0, all.0), ((leaves.1, leaves.2, leaves.3), all.1))

  final_items_stay :
      (rows : List ItemRow) (intakes : Map ℕ IntakeRow)
      → All IsFinal rows
      → Yields (pre_flight_items checks intakes rows) (λ after. after.0 ≡ rows)
  unfolding pre_flight_items
  final_items_stay [] intakes f = refl
  final_items_stay (row ∷ rows) intakes f =
      yields_then (pre_flight_task_item checks row (get row.id intakes)) _ _ _
        (final_stays row (get row.id intakes) f.0)
        λ checked same. yields_skip (write_item checks checked) _ _ λ _.
          yields_skip (write_intake checks row.id checked.intake intakes) _ _ λ after.
            yields_then (pre_flight_items checks after rows) _ _ _ (final_items_stay rows after f.1)
              λ rest all. cc (same, all)

final-IsSettled : (row : ItemRow) → IsFinal row → IsSettled row
final-IsSettled row f = elim (Bool-cases (is_passed row)) [
  | inr open_row ↦ inr (f.decided open_row)
  | inl passed ↦ passed_waits_not row passed
]

All-IsSettled : (rows : List ItemRow) → All IsFinal rows → All IsSettled rows
All-IsSettled [] f = tt
All-IsSettled (row ∷ rows) f = (final-IsSettled row f.0, All-IsSettled rows f.1)

-- What holds after the loop holds after the transaction.
committed-Yields :
    (checks : Checks) (P : List ItemRow × Map ℕ IntakeRow → Type 0)
    (done : Result Error (List ItemRow × Map ℕ IntakeRow))
    → Yields done P
    → Yields (committed checks done) P
committed-Yields checks P (err cause) h = tt
committed-Yields checks P (ok tables) h =
    by_test (λ (r : Result Error (List ItemRow × Map ℕ IntakeRow)). Yields r P) checks.commit_fails
      _ _ (λ _. tt) (λ _. h)

module _ (checks : Checks) (task_id : ℕ) (rows : List ItemRow) (intakes : Map ℕ IntakeRow)
    (P : List ItemRow × Map ℕ IntakeRow → Type 0) where
  abbrev Meets : Result Error (List ItemRow × Map ℕ IntakeRow) → Type 0
  Meets result = Yields result P

  check-Yields :
      ((not checks.enabled || nat_eq task_id 0) ≡ true → P (rows, intakes))
      → Yields (pre_flight_items checks intakes rows) P
      → Meets (pre_flight_check checks task_id rows intakes)
  unfolding pre_flight_check
  check-Yields skipped looped =
      by_test Meets (not checks.enabled || nat_eq task_id 0) _ _ skipped (λ _.
        by_test Meets (checks.items_read_fails || checks.intakes_read_fails) _ _ (λ _. tt)
          (λ _. committed-Yields checks P (pre_flight_items checks intakes rows) looped))

of_result :
    (P : List ItemRow × Map ℕ IntakeRow → Type 0)
    (r : Result Error (List ItemRow × Map ℕ IntakeRow)) (after : List ItemRow × Map ℕ IntakeRow)
    → r ≡ ok after
    → Yields r P
    → P after
of_result P r after q h = subst (λ s. Yields s P) q h

-- If the check before an attempt is enabled and passes for a task with an id, then the stored
-- rows are those of the same items, changed at most in the question, the status and the note of
-- their resolution, and no item with an id waits for a question any more; each item either has
-- no id or did not wait, and is as it was; or it has no title, and is invalid; or it waited,
-- and is resolved to the question (its id, code and title) if the question banks answer exactly
-- one for its platform and title, and is invalid if they answer none or several; those that
-- were resolved to a question are unchanged; and if a later check passes, whatever the question
-- banks answer then, and whatever the intakes are, it leaves the items as they are.
pub pre_flight_decides :
    (checks later : Checks) (task_id : ℕ) (rows rows' rows2 : List ItemRow)
    (intakes intakes' known intakes2 : Map ℕ IntakeRow)
    → checks.enabled ≡ true
    → nat_eq task_id 0 ≡ false
    → pre_flight_check checks task_id rows intakes ≡ ok (rows', intakes')
    → pre_flight_check later task_id rows' known ≡ ok (rows2, intakes2)
    → All IsSettled rows' × AreDecided checks.by_title rows rows' × (rows2 ≡ rows')
pre_flight_decides checks later task_id rows rows' rows2 intakes intakes' known intakes2 on there
      first second =
    let (final, keeps) =
      of_result (LeavesAll checks rows) (pre_flight_check checks task_id rows intakes)
        (rows', intakes') first
        (check-Yields checks task_id rows intakes (LeavesAll checks rows)
          (λ skipped. absurd (ground (arith, on, there, skipped)))
          (pre_flight_items-LeavesAll checks rows intakes)) in
    let again : rows2 ≡ rows' =
      of_result (λ after. after.0 ≡ rows') (pre_flight_check later task_id rows' known)
        (rows2, intakes2) second
        (check-Yields later task_id rows' known (λ after. after.0 ≡ rows') (λ _. refl)
          (final_items_stay later rows' known final)) in
    (All-IsSettled rows' final, keeps, again)
