-- ===== src/OjTask/Lifecycle/Store.antt =====
-- internal/model/entity/ojTask.go with ojTaskRepo.go and ojTaskExecutionRepo.go: the rows of a task, and
-- the reads that the service makes in them. Which calls fail, and which ids the tables give to new rows,
-- is given from outside.
use personal_assistant.Base.{
  ℕ, suc, ◌+◌, nat_eq, ltb, Bool, false, not, ◌||◌, List, [], ◌∷◌, Option, none, some,
  if◌then◌else◌, ◌==◌, nat_key,
}
use personal_assistant.Base.Buckets.{or_empty}
use personal_assistant.Base.Maps.{Map, get, put}
use personal_assistant.Base.Text.{Text, lit, text_key}
use personal_assistant.Base.Result.{Result, ok, err, ◌>>◌}
use personal_assistant.OjTask.Build.{normalize_uint_slice}
use personal_assistant.OjTask.Types.{Error, db_error, internal_error, Task, Execution, Db}
use personal_assistant.OjTask.Lifecycle.Draft.{DraftItem, OrgAnswer}
use personal_assistant.OjTask.Lifecycle.Materialize.{Questions}

-- OJTaskItem: a stored item with its id.
pub record ItemRow : Type 0 where
  pub id : ℕ
  pub item : DraftItem

-- OJQuestionIntake
pub record IntakeRow : Type 0 where
  pub task_id : ℕ
  pub task_item_id : ℕ
  pub platform : Text
  pub input_title : Text
  pub status : Text
  pub resolved_question_id : ℕ
  pub resolution_note : Text

-- The tables, those of the rows of a task by the task's id, and the triggers in the outbox, the
-- latest first: each an execution with its task.
pub record Store : Type 0 where
  pub db : Db
  pub orgs : Map ℕ (List ℕ)
  pub items : Map ℕ (List ItemRow)
  pub intakes : Map ℕ (List IntakeRow)
  pub triggers : List (ℕ × ℕ)

pub data RepoCall : Type 0 where
  read_task read_execution read_orgs read_items read_latest : RepoCall
  write_task write_root write_orgs write_items write_intakes write_execution publish commit :
      RepoCall

-- What an operation meets outside: `authorize operator org` is AuthorizeOrgCapability, and `item_id` is
-- the id of the item that is stored at a position.
pub record Outside : Type 0 where
  pub fails : RepoCall → Bool
  pub authorize : ℕ → ℕ → Result Error (Unit {0})
  pub org : ℕ → OrgAnswer
  pub questions : Questions
  pub has_publisher : Bool
  pub now : ℕ
  pub new_task_id : ℕ
  pub new_execution_id : ℕ
  pub item_id : ℕ → ℕ

-- GetByTaskID: the execution whose task this is.
unfoldable pub find_by_task : ℕ → Map ℕ Execution → Option (ℕ × Execution)
find_by_task task_id [] = none
find_by_task task_id ((id, execution) ∷ rest) =
    if nat_eq execution.task_id task_id then some (id, execution) else find_by_task task_id rest

abbrev pub is_root : ℕ → Option ℕ → Bool
is_root root none = false
is_root root (some id) = nat_eq id root

abbrev pub larger : ℕ → Option ℕ → ℕ
larger version none = version
larger version (some other) = if ltb version other then other else version

-- GetLatestVersionByRootIDForUpdate: the largest version number of a chain.
unfoldable pub latest_version : ℕ → Map ℕ Task → Option ℕ
latest_version root [] = none
latest_version root ((id, task) ∷ rest) =
    let others = latest_version root rest in
    if is_root root task.root_task_id then some (larger task.version_no others) else others

abbrev pub after_version : Option ℕ → ℕ
after_version none = 1
after_version (some version) = version + 1

abbrev pub positive_root : ℕ → Option ℕ → ℕ
positive_root own none = own
positive_root own (some root) = if ltb 0 root then root else own

-- effectiveRootTaskID, of the task with this id.
abbrev pub effective_root_task_id : ℕ → Task → ℕ
effective_root_task_id id task = positive_root id task.root_task_id

abbrev pub build_task_item_rows : (ℕ → ℕ) → ℕ → List DraftItem → List ItemRow
build_task_item_rows item_id at [] = []
build_task_item_rows item_id at (item ∷ items) =
    record { id = item_id at; item = item } ∷ build_task_item_rows item_id (suc at) items

abbrev pub intake_of : ℕ → ItemRow → IntakeRow
intake_of task_id row = record {
  task_id = task_id;
  task_item_id = row.id;
  platform = row.item.platform;
  input_title = row.item.input_title;
  status = row.item.resolution_status;
  resolved_question_id = row.item.resolved_question_id;
  resolution_note = row.item.resolution_note;
}

abbrev pub build_task_intake_rows : ℕ → List ItemRow → List IntakeRow
build_task_intake_rows task_id [] = []
build_task_intake_rows task_id (row ∷ rows) =
    let rest = build_task_intake_rows task_id rows in
    if nat_eq row.id 0 || not (row.item.resolution_status == lit "pending_resolution")
    then rest
    else intake_of task_id row ∷ rest

abbrev pub task_org_ids : ℕ → Store → List ℕ
task_org_ids task_id store = normalize_uint_slice (or_empty (get task_id store.orgs))

abbrev pub with_trigger : ℕ → ℕ → Store → Store
with_trigger execution_id task_id store = record store {
  triggers = (execution_id, task_id) ∷ store.triggers;
}

module _ (outside : Outside) where
  -- A call of the database that may fail.
  abbrev pub call : RepoCall → Result Error (Unit {0})
  call name = if outside.fails name then err db_error else ok tt

  abbrev pub authorize_loop : ℕ → List ℕ → Result Error (Unit {0})
  authorize_loop operator [] = ok tt
  authorize_loop operator (org ∷ orgs) =
      outside.authorize operator org >> authorize_loop operator orgs

  abbrev pub authorize_manage_org_ids : ℕ → List ℕ → Result Error (Unit {0})
  authorize_manage_org_ids operator ids = authorize_loop operator (normalize_uint_slice ids)

  abbrev pub next_version_no : ℕ → Store → Result Error ℕ
  next_version_no root store =
      call read_latest >> ok (after_version (latest_version root store.db.tasks))

  abbrev pub publish_queued_execution_trigger : ℕ → ℕ → Store → Result Error Store
  publish_queued_execution_trigger execution_id task_id store =
      if nat_eq execution_id 0 || nat_eq task_id 0
      then ok store
      else if not outside.has_publisher
      then err internal_error
      else (call publish >> ok (with_trigger execution_id task_id store))

  -- The rows of a task: its organisations, its items, and the intakes of the items that wait.
  abbrev pub put_rows : ℕ → List ℕ → List DraftItem → Store → Store
  put_rows task_id org_ids items store =
      let rows = build_task_item_rows outside.item_id 0 items in
      record store {
        orgs = put task_id org_ids store.orgs;
        items = put task_id rows store.items;
        intakes = put task_id (build_task_intake_rows task_id rows) store.intakes;
      }

abbrev pub put_pair : ℕ → ℕ → Execution → Task → Store → Store
put_pair execution_id task_id execution task store = record store {
  db = record {
    executions = put execution_id execution store.db.executions;
    tasks = put task_id task store.db.tasks;
  };
}

-- InTx: a failure leaves the tables as they were.
abbrev pub settled {ℓ} :
    {A : Type ℓ} → Outside → Store → Result Error (A × Store) → Result Error A × Store
settled outside store (err cause) = (err cause, store)
settled outside store (ok (value, after)) =
    if outside.fails commit then (err db_error, store) else (ok value, after)
