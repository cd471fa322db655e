-- ===== src/OjTask/Lifecycle/Draft.antt =====
-- ojTask_resolution.go and validateOrgIDs of ojTaskSvc.go: a request becomes a draft, and in the
-- transaction its items are matched with questions. How one item is matched is given from outside.
use personal_assistant.Base.{
  ℕ, nat_eq, ltb, ◌||◌, List, [], ◌∷◌, Option, none, some, if◌then◌else◌, ◌==◌,
}
use personal_assistant.Base.Text.{Text, lit, is_nil, trim_space, text_key}
use personal_assistant.Base.Result.{Result, ok, err, ◌>>=◌}
use personal_assistant.OjTask.Build.{has_id}
use personal_assistant.OjTask.Types.{
  Error, db_error, invalid_params, execute_at_invalid, org_not_found, Mode, immediate, deferred,
}

pub record ItemReq : Type 0 where
  pub platform : Text
  pub title : Text
  pub analysis_token : Text

pub record TaskReq : Type 0 where
  pub title : Text
  pub description : Text
  pub mode : Text
  pub execute_at : Option ℕ
  pub org_ids : List ℕ
  pub items : List ItemReq

-- validatedOJTaskItem
pub record DraftItem : Type 0 where
  pub sort_no : ℕ
  pub platform : Text
  pub input_title : Text
  pub input_mode : Text
  pub resolved_question_id : ℕ
  pub resolved_question_code : Text
  pub resolved_title_snapshot : Text
  pub resolution_status : Text
  pub resolution_note : Text

-- A draft with the items of the request, and with those that are stored.
pub record DraftOf {ℓ} (Item : Type ℓ) : Type ℓ where
  pub title : Text
  pub description : Text
  pub mode : Mode
  pub execute_at : Option ℕ
  pub org_ids : List ℕ
  pub items : List Item

-- orgRepo.GetByID, as far as validateOrgIDs reads it.
pub data OrgAnswer : Type 0 where
  org_there org_missing org_unreadable : OrgAnswer

-- consts.IsValidOJTaskMode
abbrev pub parse_mode : Text → Result Error Mode
parse_mode mode =
    if mode == lit "immediate"
    then ok immediate
    else if mode == lit "scheduled"
    then ok deferred
    else err invalid_params

abbrev pub check_execute_at : ℕ → Mode → Option ℕ → Result Error (Option ℕ)
check_execute_at now immediate none = ok none
check_execute_at now immediate (some at) = err execute_at_invalid
check_execute_at now deferred none = err execute_at_invalid
check_execute_at now deferred (some at) =
    if ltb now at then ok (some at) else err execute_at_invalid

abbrev pub org_check : OrgAnswer → Result Error (Unit {0})
org_check org_there = ok tt
org_check org_missing = err org_not_found
org_check org_unreadable = err db_error

unfoldable pub org_loop : (ℕ → OrgAnswer) → List ℕ → List ℕ → Result Error (List ℕ)
org_loop org seen [] = ok []
org_loop org seen (id ∷ ids) =
    let again = org_loop org seen ids in
    let first =
      org_check (org id) >>= λ _. org_loop org (id ∷ seen) ids >>= λ rest. ok (id ∷ rest) in
    if nat_eq id 0 then err invalid_params else if has_id id seen then again else first

abbrev pub not_empty {ℓ} : {A : Type ℓ} → List A → Result Error (List A)
not_empty [] = err invalid_params
not_empty (x ∷ xs) = ok (x ∷ xs)

unfoldable pub validate_org_ids : (ℕ → OrgAnswer) → List ℕ → Result Error (List ℕ)
validate_org_ids org ids =
    not_empty ids >>= λ ids. org_loop org [] ids >>= λ normalized. not_empty normalized

abbrev pub trimmed_item : ItemReq → ItemReq
trimmed_item item = record {
  platform = trim_space item.platform;
  title = trim_space item.title;
  analysis_token = trim_space item.analysis_token;
}

unfoldable pub item_checks : List ItemReq → Result Error (List ItemReq)
item_checks [] = ok []
item_checks (item ∷ items) =
    if is_nil (trim_space item.platform) || is_nil (trim_space item.title)
    then err invalid_params
    else (item_checks items >>= λ rest. ok (trimmed_item item ∷ rest))

unfoldable pub validate_items : List ItemReq → Result Error (List ItemReq)
validate_items items = not_empty items >>= λ items. item_checks items

unfoldable pub validate_draft : (ℕ → OrgAnswer) → ℕ → TaskReq → Result Error (DraftOf ItemReq)
validate_draft org now req = if is_nil (trim_space req.title) then err invalid_params else do
  mode ← parse_mode (trim_space req.mode)
  execute_at ← check_execute_at now mode req.execute_at
  org_ids ← validate_org_ids org req.org_ids
  items ← validate_items req.items
  ok (record {
    title = trim_space req.title;
    description = trim_space req.description;
    mode = mode;
    execute_at = execute_at;
    org_ids = org_ids;
    items = items;
  })
