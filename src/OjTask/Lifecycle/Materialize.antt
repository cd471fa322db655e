-- ===== src/OjTask/Lifecycle/Materialize.antt =====
-- ojTask_resolution.go: in the transaction a draft's items are matched with questions. What the token's
-- codec and the question banks answer is given from outside.
use personal_assistant.Base.{
  ℕ, ◌+◌, Bool, false, not, ◌||◌, List, [], ◌∷◌, ◌++◌, Option, none, some, if◌then◌else◌, ◌==◌,
}
use personal_assistant.Base.Text.{Text, lit, is_nil, trim_space, text_key}
use personal_assistant.Base.Decimal.{show_nat}
use personal_assistant.Base.Result.{Result, ok, err, ◌>>=◌}
use personal_assistant.OjTask.Types.{Error, invalid_params, question_ambiguous}
use personal_assistant.OjTask.Lifecycle.Draft.{ItemReq, DraftItem, DraftOf, not_empty}

-- ojTaskAnalyzeCandidate
pub record Candidate : Type 0 where
  pub question_id : ℕ
  pub question_code : Text
  pub title : Text

-- ojTaskAnalysisTokenClaims
pub record Claims : Type 0 where
  pub platform : Text
  pub title : Text
  pub question_id : ℕ

-- analysisTokenCodec.Decode, getVerifiedCandidateByID and findVerifiedTitleCandidates.
pub record Questions : Type 0 where
  pub decode : Text → Option Claims
  pub by_id : Text → ℕ → Result Error Candidate
  pub by_title : Text → Text → Result Error (List Candidate)

abbrev pub resolved_item : ItemReq → Candidate → DraftItem
resolved_item item candidate = record {
  sort_no = 0;
  platform = item.platform;
  input_title = item.title;
  input_mode = lit "title";
  resolved_question_id = candidate.question_id;
  resolved_question_code = candidate.question_code;
  resolved_title_snapshot = candidate.title;
  resolution_status = lit "resolved";
  resolution_note = [];
}

abbrev pub pending_item : ItemReq → DraftItem
pending_item item = record {
  sort_no = 0;
  platform = item.platform;
  input_title = item.title;
  input_mode = lit "title";
  resolved_question_id = 0;
  resolved_question_code = [];
  resolved_title_snapshot = [];
  resolution_status = lit "pending_resolution";
  resolution_note = lit "awaiting_question_sync";
}

abbrev pub by_candidates : ItemReq → List Candidate → Result Error DraftItem
by_candidates item [] = ok (pending_item item)
by_candidates item (candidate ∷ []) = ok (resolved_item item candidate)
by_candidates item (candidate ∷ other ∷ others) = err question_ambiguous

abbrev pub by_claims : Questions → ItemReq → Option Claims → Result Error DraftItem
by_claims questions item none = err invalid_params
by_claims questions item (some claims) =
    if not (claims.platform == item.platform) || not (trim_space claims.title == item.title)
    then err invalid_params
    else (questions.by_id item.platform claims.question_id >>= λ found.
        ok (resolved_item item found))

unfoldable pub materialize_draft_item : Questions → ItemReq → Result Error DraftItem
materialize_draft_item questions item =
    if not (is_nil item.analysis_token)
    then by_claims questions item (questions.decode item.analysis_token)
    else (questions.by_title item.platform item.title >>= by_candidates item)

-- normalizeMaterializedTaskItemKey
abbrev pub item_key : DraftItem → Text
item_key item =
    item.platform
    ++ lit "|"
    ++ item.input_title
    ++ lit "|"
    ++ show_nat item.resolved_question_id
    ++ lit "|"
    ++ item.resolution_status

abbrev pub has_text : Text → List Text → Bool
has_text text [] = false
has_text text (other ∷ others) = text == other || has_text text others

-- `size` is the number of items before.
unfoldable pub materialize_loop :
    Questions → List Text → ℕ → List ItemReq → Result Error (List DraftItem)
materialize_loop questions seen size [] = ok []
materialize_loop questions seen size (item ∷ items) = do
  found ← materialize_draft_item questions item
  let skipped = materialize_loop questions seen size items
  let taken = materialize_loop questions (item_key found ∷ seen) (size + 1) items >>= λ rest.
      ok (record found { sort_no = size + 1 } ∷ rest)
  if has_text (item_key found) seen then skipped else taken

unfoldable pub materialize_draft_items : Questions → List ItemReq → Result Error (List DraftItem)
materialize_draft_items questions items = do
  items ← not_empty items
  found ← materialize_loop questions [] 0 items
  not_empty found

unfoldable pub materialize_draft : Questions → DraftOf ItemReq → Result Error (DraftOf DraftItem)
materialize_draft questions draft = do
  items ← materialize_draft_items questions draft.items
  ok (record {
    title = draft.title;
    description = draft.description;
    mode = draft.mode;
    execute_at = draft.execute_at;
    org_ids = draft.org_ids;
    items = items;
  })
