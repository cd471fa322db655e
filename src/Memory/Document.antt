-- ===== src/Memory/Document.antt =====
-- ShouldStoreDocument of internal/service/system/aiMemoryPolicy.go, with the hashes and the dedup key
-- of internal/domain/ai/memory_policy.go. SHA-256 in hex and `strings.ToLower` are parameters.
pub mod Exact
use personal_assistant.Base.{
  Bool, true, false, not, ◌&&◌, ◌||◌, List, [], ◌∷◌, ◌++◌, Option, ℕ, ◌==◌, if◌then◌else◌,
}
use personal_assistant.Base.Text.{Text, lit, is_nil, is_space, trim_space, text_key}
use personal_assistant.Memory.Types.{
  ScopeType, MemoryType, session_summary, SourceKind, explicit_user_statement, admin_set,
  tool_verified_summary, model_inferred, raw_trace_payload, full_tool_output, other_source, Float,
  TtlHint, AccessContext, Decision, ScopeDecision, VisibilityDecision, ScopeInput, allow, deny,
  Reason, deny_forbidden_source, deny_truth_conflict, deny_low_value_content,
  deny_duplicate_document, allow_store_document,
}
use personal_assistant.Memory.Access.{
  resolve_scope, resolve_visibility, evaluate_memory_access, new_memory_access_target,
}
use personal_assistant.Memory.Store.{
  is_forbidden_memory_source, is_memory_confidence_too_low, is_session_only_ttl_hint,
}

pub record DocumentCandidate : Type 0 where
  pub scope_type : ScopeType
  pub user_id : Option ℕ
  pub org_id : Option ℕ
  pub memory_type : MemoryType
  pub topic : Text
  pub summary : Text
  pub content_text : Text
  pub confidence : Float
  pub ttl_hint : Option TtlHint
  pub source_kind : SourceKind
  pub source_id : Text
  pub low_value : Bool
  pub truth_conflict : Bool

pub record DocumentDecision : Type 0 where
  pub decision : Decision
  pub content_hash : Text
  pub summary_hash : Text
  pub dedup_key : Text

abbrev pub deny_document : Decision → DocumentDecision
deny_document decision = record {
  decision = decision;
  content_hash = [];
  summary_hash = [];
  dedup_key = [];
}

-- The text of a source kind.
abbrev pub source_text : SourceKind → Text
source_text explicit_user_statement = lit "explicit_user_statement"
source_text admin_set = lit "admin_set"
source_text tool_verified_summary = lit "tool_verified_summary"
source_text model_inferred = lit "model_inferred"
source_text raw_trace_payload = lit "raw_trace_payload"
source_text full_tool_output = lit "full_tool_output"
source_text (other_source name) = name

-- The text is at its end or goes on with a space.
abbrev pub breaks : Text → Bool
breaks [] = true
breaks (c ∷ cs) = is_space c

abbrev pub extend : Bool → ℕ → List Text → List Text
extend true c words = (c ∷ []) ∷ words
extend false c [] = (c ∷ []) ∷ []
extend false c (word ∷ words) = (c ∷ word) ∷ words

-- strings.Fields
unfoldable pub fields : Text → List Text
fields [] = []
fields (c ∷ cs) = let rest = fields cs in if is_space c then rest else extend (breaks cs) c rest

-- strings.Join(words, " ")
unfoldable pub join : List Text → Text
join [] = []
join (word ∷ words) = elim words [ [] ↦ word | next ∷ rest ↦ word ++ 32 ∷ join words ]

unfoldable pub normalize_memory_text : Text → Text
normalize_memory_text text = join (fields (trim_space text))

abbrev pub is_low_document : DocumentCandidate → Bool
is_low_document candidate =
    candidate.low_value
    || (is_nil (trim_space candidate.summary) && is_nil (trim_space candidate.content_text))
    || is_memory_confidence_too_low candidate.confidence
    || is_session_only_ttl_hint candidate.ttl_hint

abbrev pub is_summary : MemoryType → Bool
is_summary session_summary = true
is_summary _ = false

abbrev pub document_scope : DocumentCandidate → AccessContext → ScopeDecision
document_scope candidate access =
    resolve_scope
      (record {
        scope_type = candidate.scope_type;
        user_id = candidate.user_id;
        org_id = candidate.org_id;
      })
      access

module _ (hash lower : Text → Text) where
  unfoldable pub hash_memory_value : Text → Text
  hash_memory_value text = if is_nil text then [] else hash text

  abbrev pub hashed_text : Text → Text
  hashed_text text = hash_memory_value (normalize_memory_text text)

  abbrev pub content_key : Text → Text
  content_key content = if is_nil content then [] else lit "content:" ++ content

  abbrev pub summary_key : Text → Text → Text
  summary_key summary content =
      if is_nil summary then content_key content else lit "summary:" ++ summary

  abbrev pub source_key : Text → Text → Text → Text → Text
  source_key kind id topic otherwise =
      if not (is_nil kind) && not (is_nil id) && not (is_nil topic)
      then lit "src:" ++ hash_memory_value (lower (kind ++ 10 ∷ (id ++ 10 ∷ topic)))
      else otherwise

  unfoldable pub build_dedup_key : SourceKind → Text → Text → Text → Text → Text
  build_dedup_key kind id topic summary content =
      source_key (normalize_memory_text (source_text kind)) (normalize_memory_text id)
        (normalize_memory_text topic) (summary_key (hashed_text summary) (hashed_text content))

  abbrev pub if_keyed : DocumentCandidate → Text → DocumentDecision
  if_keyed candidate key =
      if is_nil key then deny_document (deny deny_duplicate_document) else record {
        decision = allow allow_store_document;
        content_hash = hashed_text candidate.content_text;
        summary_hash = hashed_text candidate.summary;
        dedup_key = key;
      }

  abbrev pub if_document_writable : DocumentCandidate → Text → Decision → DocumentDecision
  if_document_writable candidate key write =
      if not write.allowed then deny_document write else if_keyed candidate key

  abbrev pub if_document_scoped :
      DocumentCandidate
      → AccessContext
      → Text
      → ScopeDecision
      → VisibilityDecision
      → DocumentDecision
  if_document_scoped candidate access key scope visible =
      if not scope.decision.allowed
      then deny_document scope.decision
      else if not visible.decision.allowed
      then deny_document visible.decision
      else if_document_writable candidate key
          (evaluate_memory_access (new_memory_access_target scope visible) access)

  abbrev pub document_key : DocumentCandidate → Text
  document_key candidate =
      build_dedup_key candidate.source_kind candidate.source_id candidate.topic candidate.summary
        candidate.content_text

  unfoldable pub should_store_document : DocumentCandidate → AccessContext → DocumentDecision
  should_store_document candidate access =
      if is_summary candidate.memory_type || is_forbidden_memory_source candidate.source_kind
      then deny_document (deny deny_forbidden_source)
      else if candidate.truth_conflict
      then deny_document (deny deny_truth_conflict)
      else if is_low_document candidate
      then deny_document (deny deny_low_value_content)
      else if_document_scoped candidate access (document_key candidate)
          (document_scope candidate access)
          (resolve_visibility (document_scope candidate access) candidate.source_kind)
