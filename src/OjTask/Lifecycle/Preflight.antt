-- ===== src/OjTask/Lifecycle/Preflight.antt =====
-- ojTask_preflight.go and ojTask_question_upsert.go: before an attempt starts, the items of a task that
-- still wait are matched with questions once more, in one transaction.
use personal_assistant.Base.{
  ℕ, nat_eq, ltb, Bool, true, false, not, ◌&&◌, ◌||◌, List, [], ◌∷◌, Option, none, some,
  if◌then◌else◌, ◌==◌, nat_key,
}
use personal_assistant.Base.Maps.{Map, get, put}
use personal_assistant.Base.Text.{Text, lit, is_nil, text_key}
use personal_assistant.Base.Result.{Result, ok, err, ◌>>=◌, ◌>>◌}
use personal_assistant.OjTask.Types.{Error, db_error}
use personal_assistant.OjTask.Lifecycle.Draft.{DraftItem}
use personal_assistant.OjTask.Lifecycle.Materialize.{Candidate}
use personal_assistant.OjTask.Lifecycle.Store.{ItemRow, IntakeRow}

-- What a check meets outside: findVerifiedTitleCandidates, and which calls fail; the writes by the id of
-- the item.
pub record Checks : Type 0 where
  pub enabled : Bool
  pub items_read_fails : Bool
  pub intakes_read_fails : Bool
  pub by_title : Text → Text → Result Error (List Candidate)
  pub item_write_fails : ℕ → Bool
  pub intake_write_fails : ℕ → Bool
  pub commit_fails : Bool

-- The item after the check of one, whether it is written, and the intake if it is written.
pub record Checked : Type 0 where
  pub row : ItemRow
  pub changed : Bool
  pub intake : Option IntakeRow

abbrev pub is_resolved : DraftItem → Bool
is_resolved item = (item.resolution_status == lit "resolved") && ltb 0 item.resolved_question_id

abbrev pub waits_for_question : DraftItem → Bool
waits_for_question item = item.resolution_status == lit "pending_resolution"

abbrev pub invalid_row : Text → ItemRow → ItemRow
invalid_row note row = record row {
  item = record row.item { resolution_status = lit "invalid"; resolution_note = note };
}

abbrev pub invalid_intake : Text → Option IntakeRow → Option IntakeRow
invalid_intake note none = none
invalid_intake note (some intake) =
    some (record intake { status = lit "invalid"; resolution_note = note })

abbrev pub resolved_intake : Candidate → Option IntakeRow → Option IntakeRow
resolved_intake candidate none = none
resolved_intake candidate (some intake) = some (record intake {
  status = lit "resolved";
  resolved_question_id = candidate.question_id;
  resolution_note = [];
})

-- applyResolvedCandidateToTaskItem: the item, and whether it is another.
abbrev pub apply_resolved_candidate : Candidate → Text → ItemRow → ItemRow
apply_resolved_candidate candidate note row = record row {
  item = record row.item {
    resolved_question_id = candidate.question_id;
    resolved_question_code = candidate.question_code;
    resolved_title_snapshot = candidate.title;
    resolution_status = lit "resolved";
    resolution_note = note;
  };
}

abbrev pub is_changed : Candidate → Text → DraftItem → Bool
is_changed candidate note item =
    not (nat_eq item.resolved_question_id candidate.question_id)
    || not (item.resolved_question_code == candidate.question_code)
    || not (item.resolved_title_snapshot == candidate.title)
    || not (item.resolution_status == lit "resolved")
    || not (item.resolution_note == note)

abbrev pub passed_over : ItemRow → Checked
passed_over row = record { row = row; changed = false; intake = none }

abbrev pub unmatched_row : Text → ItemRow → Option IntakeRow → Checked
unmatched_row note row intake = record {
  row = invalid_row note row;
  changed = true;
  intake = invalid_intake note intake;
}

abbrev pub by_found : ItemRow → Option IntakeRow → List Candidate → Checked
by_found row intake [] = unmatched_row (lit "preflight_resolution_failed") row intake
by_found row intake (candidate ∷ []) = record {
  row = apply_resolved_candidate candidate (lit "preflight_auto_resolved") row;
  changed = is_changed candidate (lit "preflight_auto_resolved") row.item;
  intake = resolved_intake candidate intake;
}
by_found row intake (candidate ∷ other ∷ others) =
    unmatched_row (lit "preflight_resolution_failed") row intake

-- UpdateItem runs only if the item is changed: else the row that is stored stays as it was.
abbrev pub stored_row : ItemRow → Checked → ItemRow
stored_row row checked = if checked.changed then checked.row else row

module _ (checks : Checks) where
  unfoldable pub pre_flight_task_item : ItemRow → Option IntakeRow → Result Error Checked
  pre_flight_task_item row intake =
      if nat_eq row.id 0 || is_resolved row.item
      then ok (passed_over row)
      else if is_nil row.item.input_title
      then ok (unmatched_row (lit "preflight_input_title_missing") row intake)
      else if not (waits_for_question row.item)
      then ok (passed_over row)
      else (checks.by_title row.item.platform row.item.input_title >>= λ found.
          ok (by_found row intake found))

  abbrev pub write_item : Checked → Result Error (Unit {0})
  write_item checked =
      if checked.changed && checks.item_write_fails checked.row.id then err db_error else ok tt

  abbrev pub write_intake : ℕ → Option IntakeRow → Map ℕ IntakeRow → Result Error (Map ℕ IntakeRow)
  write_intake id none intakes = ok intakes
  write_intake id (some intake) intakes =
      if checks.intake_write_fails id then err db_error else ok (put id intake intakes)

  -- The loop over the items; the intakes by the id of their item.
  unfoldable pub pre_flight_items :
      Map ℕ IntakeRow → List ItemRow → Result Error (List ItemRow × Map ℕ IntakeRow)
  pre_flight_items intakes [] = ok ([], intakes)
  pre_flight_items intakes (row ∷ rows) = do
    checked ← pre_flight_task_item row (get row.id intakes)
    write_item checked
    after ← write_intake row.id checked.intake intakes
    rest ← pre_flight_items after rows
    ok (stored_row row checked ∷ rest.0, rest.1)

  abbrev pub committed :
      Result Error (List ItemRow × Map ℕ IntakeRow) → Result Error (List ItemRow × Map ℕ IntakeRow)
  committed done = done >>= λ tables. if checks.commit_fails then err db_error else ok tables

  -- The tables of the task after the check; an error leaves them as they were.
  unfoldable pub pre_flight_check :
      ℕ → List ItemRow → Map ℕ IntakeRow → Result Error (List ItemRow × Map ℕ IntakeRow)
  pre_flight_check task_id rows intakes =
      if not checks.enabled || nat_eq task_id 0
      then ok (rows, intakes)
      else if checks.items_read_fails || checks.intakes_read_fails
      then err db_error
      else committed (pre_flight_items intakes rows)
