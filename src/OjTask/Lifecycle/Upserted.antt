-- ===== src/OjTask/Lifecycle/Upserted.antt =====
-- ojTask_question_upsert.go: when a question bank has a new question, the items that wait for its title are
-- matched with it (HandleQuestionUpserted), in one transaction.
use personal_assistant.Base.{
  ℕ, nat_eq, ltb, Bool, not, ◌&&◌, ◌||◌, List, [], ◌∷◌, ◌++◌, map, Option, none, some,
  if◌then◌else◌, ◌==◌,
}
use personal_assistant.Base.Maps.{Map}
use personal_assistant.Base.Text.{Text, lit, is_nil, trim_space, text_key}
use personal_assistant.Base.Result.{Result, ok, err, ◌>>=◌, ◌>>◌}
use personal_assistant.OjTask.Snapshot.{sort_by}
use personal_assistant.OjTask.Types.{Error, db_error, invalid_params}
use personal_assistant.OjTask.Persist.{unless}
use personal_assistant.OjTask.Lifecycle.Materialize.{Candidate}
use personal_assistant.OjTask.Lifecycle.Store.{ItemRow, IntakeRow, Store}
use personal_assistant.OjTask.Lifecycle.Preflight.{
  waits_for_question, apply_resolved_candidate, is_changed,
}

-- What an event meets outside: findVerifiedTitleCandidates, and which calls fail; those of an item by its
-- id.
pub record Upserts : Type 0 where
  pub by_title : Text → Text → Result Error (List Candidate)
  pub intakes_read_fails : Bool
  pub item_read_fails : ℕ → Bool
  pub item_write_fails : ℕ → Bool
  pub intake_write_fails : ℕ → Bool
  pub commit_fails : Bool

-- The items and the intakes, by task.
abbrev pub Rows : Type 0
Rows = Map ℕ (List ItemRow) × Map ℕ (List IntakeRow)

-- GetItemByID
unfoldable pub find_item : ℕ → List ItemRow → Option ItemRow
find_item id [] = none
find_item id (row ∷ rows) = if nat_eq row.id id then some row else find_item id rows

unfoldable pub all_rows {ℓ} : {A : Type ℓ} → Map ℕ (List A) → List A
all_rows [] = []
all_rows ((task, rows) ∷ rest) = rows ++ all_rows rest

-- UpdateItem and UpdateIntake: an intake is the only one of its item.
abbrev pub save_item : ItemRow → Map ℕ (List ItemRow) → Map ℕ (List ItemRow)
save_item saved items =
    map
      (λ (task : ℕ × List ItemRow).
        (task.0, map (λ (row : ItemRow). if nat_eq row.id saved.id then saved else row) task.1))
      items

abbrev pub save_intake : IntakeRow → Map ℕ (List IntakeRow) → Map ℕ (List IntakeRow)
save_intake saved intakes =
    map
      (λ (task : ℕ × List IntakeRow). (
        task.0,
        map (λ (row : IntakeRow). if nat_eq row.task_item_id saved.task_item_id then saved else row)
            task.1,
      ))
      intakes

abbrev pub waits_for_title : Text → Text → IntakeRow → Bool
waits_for_title platform title intake =
    (intake.platform == platform)
    && (intake.input_title == title)
    && (intake.status == lit "pending_resolution")

abbrev pub waiting_of : Text → Text → List IntakeRow → List IntakeRow
waiting_of platform title [] = []
waiting_of platform title (intake ∷ intakes) =
    let rest = waiting_of platform title intakes in
    if waits_for_title platform title intake then intake ∷ rest else rest

-- ListPendingIntakesByTitle
unfoldable pub list_pending_intakes_by_title : Text → Text → Map ℕ (List IntakeRow) → List IntakeRow
list_pending_intakes_by_title platform title intakes =
    sort_by (λ (a b : IntakeRow). ltb a.task_item_id b.task_item_id)
      (waiting_of platform title (all_rows intakes))

abbrev pub upsert_note : Text
upsert_note = lit "auto_resolved_from_question_upsert"

abbrev pub matched_intake : Candidate → IntakeRow → IntakeRow
matched_intake candidate intake = record intake {
  status = lit "resolved";
  resolved_question_id = candidate.question_id;
  resolution_note = [];
}

-- The item of an intake, if it still waits under this title.
abbrev pub still_waits : Text → ItemRow → Bool
still_waits title row =
    not (nat_eq row.id 0)
    && waits_for_question row.item
    && (trim_space row.item.input_title == title)

module _ (upserts : Upserts) (candidate : Candidate) (title : Text) where
  abbrev pub save_changed : ItemRow → Map ℕ (List ItemRow) → Result Error (Map ℕ (List ItemRow))
  save_changed row items =
      if not (is_changed candidate upsert_note row.item)
      then ok items
      else if upserts.item_write_fails row.id
      then err db_error
      else ok (save_item (apply_resolved_candidate candidate upsert_note row) items)

  abbrev pub save_matched : IntakeRow → ItemRow → Rows → Result Error Rows
  save_matched intake row (items, intakes) = do
    saved ← save_changed row items
    unless (upserts.intake_write_fails row.id)
    ok (saved, save_intake (matched_intake candidate intake) intakes)

  abbrev pub match_found : IntakeRow → Option ItemRow → Rows → Result Error Rows
  match_found intake none rows = ok rows
  match_found intake (some row) rows =
      if still_waits title row then save_matched intake row rows else ok rows

  abbrev pub match_intake : IntakeRow → Rows → Result Error Rows
  match_intake intake rows =
      if nat_eq intake.task_item_id 0
      then ok rows
      else if upserts.item_read_fails intake.task_item_id
      then err db_error
      else match_found intake (find_item intake.task_item_id (all_rows rows.0)) rows

  unfoldable pub match_intakes : List IntakeRow → Rows → Result Error Rows
  match_intakes [] rows = ok rows
  match_intakes (intake ∷ intakes) rows =
      match_intake intake rows >>= λ after. match_intakes intakes after

abbrev pub match_candidates : Upserts → Text → Text → List Candidate → Rows → Result Error Rows
match_candidates upserts platform title [] rows = ok rows
match_candidates upserts platform title (candidate ∷ []) rows =
    if upserts.intakes_read_fails
    then err db_error
    else match_intakes upserts candidate title (list_pending_intakes_by_title platform title rows.1)
        rows
match_candidates upserts platform title (candidate ∷ other ∷ others) rows = ok rows

abbrev pub upserted_rows : Upserts → Text → Text → Store → Result Error Rows
upserted_rows upserts platform title s =
    if is_nil (trim_space platform) || is_nil (trim_space title) then err invalid_params else do
      found ← upserts.by_title platform (trim_space title)
      rows ← match_candidates upserts platform (trim_space title) found (s.items, s.intakes)
      unless upserts.commit_fails
      ok rows

-- A failure leaves the tables as they were.
abbrev pub settled_rows : Store → Result Error Rows → Result Error (Unit {0}) × Store
settled_rows s (err cause) = (err cause, s)
settled_rows s (ok (items, intakes)) = (ok tt, record s { items = items; intakes = intakes })

unfoldable pub handle_question_upserted :
    Upserts → Text → Text → Store → Result Error (Unit {0}) × Store
handle_question_upserted upserts platform title s =
    settled_rows s (upserted_rows upserts platform title s)
