-- ===== src/Memory/Types.antt =====
-- internal/domain/ai/memory.go and internal/domain/ai/memory_policy.go: the vocabulary of the memory
-- policy. A Go string type with constants is a data type with one more constructor for any other
-- text; the reason texts of the decisions are left out, their codes are kept.
use personal_assistant.Base.{ℕ, Bool, true, false, List, ◌++◌, Option}
use personal_assistant.Base.Text.{Text, lit}
use personal_assistant.Base.Decimal.{show_nat}
use personal_assistant.Base.Int.{ℤ}

pub data ScopeType : Type 0 where
  self_scope org_scope platform_ops : ScopeType
  other_scope : Text → ScopeType

pub data MemoryType : Type 0 where
  entity session_summary episodic semantic procedural incident faq : MemoryType
  other_type : Text → MemoryType

pub data Visibility : Type 0 where
  self_visible org_visible super_admin_visible : Visibility
  other_visibility : Text → Visibility

pub data SourceKind : Type 0 where
  explicit_user_statement admin_set tool_verified_summary model_inferred : SourceKind
  raw_trace_payload full_tool_output : SourceKind
  other_source : Text → SourceKind

pub data Reason : Type 0 where
  allow_self_scope allow_org_scope allow_platform_ops_scope : Reason
  deny_permission_dependency_missing deny_scope_mismatch deny_visibility_mismatch : Reason
  deny_not_super_admin deny_not_in_approved_org_scope deny_forbidden_source : Reason
  deny_low_value_content deny_truth_conflict : Reason
  override_explicit_user_statement override_admin_set skip_lower_priority_source : Reason
  skip_same_value allow_store_fact allow_same_priority deny_duplicate_document : Reason
  allow_store_document : Reason

-- A finite float64, mantissa / 2 ^ exponent.
pub record Float : Type 0 where
  pub mantissa : ℤ
  pub exponent : ℕ

pub record Principal : Type 0 where
  pub user_id : ℕ
  pub is_super_admin : Bool

pub record AccessContext : Type 0 where
  pub principal : Principal
  pub approved_org_scope_keys : List Text
  pub approved_org_ids : List ℕ
  pub allow_platform_ops : Bool

pub record Decision : Type 0 where
  pub allowed : Bool
  pub reason_code : Reason

pub record ScopeDecision : Type 0 where
  pub decision : Decision
  pub scope_type : ScopeType
  pub scope_key : Text
  pub user_id : Option ℕ
  pub org_id : Option ℕ

pub record VisibilityDecision : Type 0 where
  pub decision : Decision
  pub visibility : Visibility

pub record AccessTarget : Type 0 where
  pub scope_type : ScopeType
  pub scope_key : Text
  pub visibility : Visibility
  pub user_id : Option ℕ
  pub org_id : Option ℕ

pub record ScopeInput : Type 0 where
  pub scope_type : ScopeType
  pub user_id : Option ℕ
  pub org_id : Option ℕ

pub record TtlHint : Type 0 where
  pub kind : Text
  pub value : ℤ
  pub unit : Text
  pub until_date : Text

pub record FactCandidate : Type 0 where
  pub scope_type : ScopeType
  pub user_id : Option ℕ
  pub org_id : Option ℕ
  pub namespace : Text
  pub fact_key : Text
  pub fact_value_json : Text
  pub confidence : Float
  pub ttl_hint : Option TtlHint
  pub source_kind : SourceKind
  pub low_value : Bool
  pub truth_conflict : Bool

pub record FactVersion : Type 0 where
  pub value_json : Text
  pub source_kind : SourceKind

abbrev pub allow : Reason → Decision
allow code = record { allowed = true; reason_code = code }

abbrev pub deny : Reason → Decision
deny code = record { allowed = false; reason_code = code }

unfoldable pub build_self_scope_key : ℕ → Text
build_self_scope_key user_id = lit "self:user:" ++ show_nat user_id

unfoldable pub build_org_scope_key : ℕ → Text
build_org_scope_key org_id = lit "org:" ++ show_nat org_id

abbrev pub build_platform_ops_scope_key : Text
build_platform_ops_scope_key = lit "platform_ops"
